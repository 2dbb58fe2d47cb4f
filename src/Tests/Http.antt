-- ===== src/Tests/Http.antt =====
-- Runs of the HTTP client: a response in chunks, whole and cut short, one with a length, an event
-- stream, and a URL.
use asio_chat_server.Common.{
  ℕ, ◌≡◌, ◌≢◌, refl, none, some, List, [], ◌∷◌, ◌++◌, arith, take, drop, codes, get_or, inr,
  bytes_eq,
}
use asio_chat_server.Common.Find.{split_at, lacks-All, from_chars, strip_prefix}
use asio_chat_server.Ai.SseParser.{new_parser, feed_all, strip_cr}
use asio_chat_server.Ai.SseParser.Events.{AreEvents, stream_text}
use asio_chat_server.Ai.HttpClient.{crlf, to_lower, find_header, set_header}
use asio_chat_server.Ai.HttpClient.Body.{
  complete, starved, word, chunk_length, chunked_body, receive_body, truncated,
}
use asio_chat_server.Ai.HttpClient.Post.{Peer, receive}
use asio_chat_server.Ai.HttpClient.Chunked.{IsChunk, encode, datas, chunked_body-cut}
use asio_chat_server.Ai.HttpClient.Length.{Delivers, length_end}
use asio_chat_server.Ai.HttpClient.Response.{
  Response, IsResponse, head_of, response_text, chunked_at, receive-chunked, receive-sized,
  receive_body-fuel,
}
use asio_chat_server.Ai.HttpClient.Events.{receive-events}

abbrev streamed : Response
streamed = record {
  version = codes "HTTP/1.1";
  first = 2;
  second = 0;
  third = 0;
  reason = codes " OK";
  headers = (codes "Transfer-Encoding", codes "Chunked") ∷ [];
}

streamed-IsResponse : IsResponse streamed
streamed-IsResponse = record {
  line = record {
    version_line = lacks-All 13 (codes "HTTP/1.1") refl;
    version_word = lacks-All 32 (codes "HTTP/1.1") refl;
    first = omega arith;
    second = omega arith;
    third = omega arith;
    reason_line = lacks-All 13 (codes " OK") refl;
  };
  lines = (
    record {
      name_line = lacks-All 13 (codes "Transfer-Encoding") refl;
      name_colon = lacks-All 58 (codes "Transfer-Encoding") refl;
      named = omega arith;
      value_line = lacks-All 13 (codes "Chunked") refl;
      value_start = refl;
    },
    tt,
  );
}

streamed-encoded : chunked_at (head_of streamed).headers ≡ some ([], [])
unfolding split_at strip_prefix find_header set_header to_lower bytes_eq
streamed-encoded = refl

-- The size with an extension, and one of two digits.
abbrev small_chunk : List ℕ × List ℕ
small_chunk = (codes "3;x", codes "abc")

abbrev large_chunk : List ℕ × List ℕ
large_chunk = (codes "1A", codes "abcdefghijklmnopqrstuvwxyz")

small_chunk-IsChunk : IsChunk small_chunk
small_chunk-IsChunk = record {
  one_line = lacks-All 13 (codes "3;x") refl;
  sized = unfold chunk_length split_at strip_prefix from_chars in refl;
  filled = omega arith;
  fits = omega arith;
}

large_chunk-IsChunk : IsChunk large_chunk
large_chunk-IsChunk = record {
  one_line = lacks-All 13 (codes "1A") refl;
  sized = unfold chunk_length split_at strip_prefix from_chars in refl;
  filled = omega arith;
  fits = omega arith;
}

last-zero : chunk_length (codes "0") ≡ 0
unfolding chunk_length split_at strip_prefix from_chars
last-zero = refl

-- A peer that sends a text in two reads.
abbrev two_reads : ℕ → List ℕ → Peer
two_reads n text = record {
  write_error = none;
  parts = take n text ∷ drop n text ∷ [];
  broken = none;
}

abbrev chunked_bytes : List ℕ
chunked_bytes =
    response_text streamed (encode (small_chunk ∷ large_chunk ∷ []) (codes "0" ++ (crlf ++ crlf)))

receive-chunked_example : receive [] (two_reads 25 chunked_bytes) ≡ record {
  head = some (head_of streamed);
  body = record { chunks = datas (small_chunk ∷ large_chunk ∷ []); ended = complete };
}
receive-chunked_example =
    receive-chunked [] (two_reads 25 chunked_bytes) streamed ([], [])
      (small_chunk ∷ large_chunk ∷ []) (codes "0") crlf streamed-IsResponse streamed-encoded
      (small_chunk-IsChunk, (large_chunk-IsChunk, tt)) (lacks-All 13 (codes "0") refl) last-zero
      refl

-- The second chunk says 26 bytes, and four come.
abbrev broken_tail : List ℕ
broken_tail = codes "1A" ++ (crlf ++ codes "abcd")

chunked_body-cut_example :
    chunked_body none 9 (encode (small_chunk ∷ []) broken_tail) []
    ≡ record { chunks = datas (small_chunk ∷ []); ended = (truncated none).ended }
chunked_body-cut_example =
    chunked_body-cut none (small_chunk ∷ []) broken_tail 9 (encode (small_chunk ∷ []) broken_tail)
      [] (small_chunk-IsChunk, tt)
      (inr (
        codes "1A",
        (
          codes "abcd",
          record {
            stream = refl;
            one_line = lacks-All 13 (codes "1A") refl;
            filled = unfold chunk_length split_at strip_prefix from_chars in (omega arith);
            fits = unfold chunk_length split_at strip_prefix from_chars in (omega arith);
            short = unfold chunk_length split_at strip_prefix from_chars in (omega arith);
          },
        ),
      ))
      (omega arith) refl

abbrev sized : Response
sized = record streamed { headers = (codes "Content-Length", codes "5") ∷ [] }

sized-IsResponse : IsResponse sized
sized-IsResponse = record {
  line = streamed-IsResponse.line;
  lines = (
    record {
      name_line = lacks-All 13 (codes "Content-Length") refl;
      name_colon = lacks-All 58 (codes "Content-Length") refl;
      named = omega arith;
      value_line = lacks-All 13 (codes "5") refl;
      value_start = refl;
    },
    tt,
  );
}

-- Five bytes are announced, and three come.
receive-sized_example :
    ((receive [] (two_reads 30 (response_text sized (codes "abc")))).head ≡ some (head_of sized))
    × Delivers
        (take (get_or 0 (from_chars 10 word (codes "5"))) (codes "abc"))
        (length_end none (get_or 0 (from_chars 10 word (codes "5"))) (codes "abc"))
        (receive [] (two_reads 30 (response_text sized (codes "abc")))).body
receive-sized_example =
    receive-sized [] (two_reads 30 (response_text sized (codes "abc"))) sized (codes "5")
      (codes "abc") sized-IsResponse
      (unfold split_at strip_prefix find_header set_header to_lower bytes_eq in refl)
      (unfold find_header set_header to_lower bytes_eq in refl) refl

receive_body-fuel_example : (receive_body none [] (codes "ab") (codes "c" ∷ [])).ended ≢ starved
receive_body-fuel_example = receive_body-fuel none [] (codes "ab") (codes "c" ∷ [])

abbrev one_event : List (List ℕ × List ℕ)
one_event = (codes "ping", codes "1") ∷ []

one_event-AreEvents : AreEvents one_event
one_event-AreEvents = (
  record {
    named = λ e. absurd cc;
    name_line = (omega arith, (omega arith, (omega arith, (omega arith, tt))));
    name_end = unfold strip_cr in refl;
    data_line = (omega arith, tt);
    data_end = unfold strip_cr in refl;
  },
  tt,
)

-- The text of the event, 21 bytes, in two chunks.
abbrev event_chunk : List ℕ × List ℕ
event_chunk = (codes "4", take 4 (stream_text one_event))

abbrev event_rest : List ℕ × List ℕ
event_rest = (codes "11", drop 4 (stream_text one_event))

event_chunk-IsChunk : IsChunk event_chunk
event_chunk-IsChunk = record {
  one_line = lacks-All 13 (codes "4") refl;
  sized = unfold chunk_length split_at strip_prefix from_chars in refl;
  filled = omega arith;
  fits = omega arith;
}

event_rest-IsChunk : IsChunk event_rest
event_rest-IsChunk = record {
  one_line = lacks-All 13 (codes "11") refl;
  sized = unfold chunk_length split_at strip_prefix from_chars in refl;
  filled = omega arith;
  fits = omega arith;
}

abbrev event_bytes : List ℕ
event_bytes =
    response_text streamed (encode (event_chunk ∷ event_rest ∷ []) (codes "0" ++ (crlf ++ crlf)))

receive-events_example :
    feed_all (receive [] (two_reads 70 event_bytes)).body.chunks new_parser
    ≡ record new_parser { events = one_event }
receive-events_example =
    receive-events [] (two_reads 70 event_bytes) streamed ([], []) one_event event_chunk
      (event_rest ∷ []) (codes "0") crlf streamed-IsResponse streamed-encoded one_event-AreEvents
      refl (event_chunk-IsChunk, (event_rest-IsChunk, tt)) (lacks-All 13 (codes "0") refl) last-zero
      refl
