-- ===== src/Ai/HttpClient/Events.antt =====
-- Server/AI/SseParser.h behind Server/AI/HttpClient.cpp: the events of a streamed answer.
use asio_chat_server.Common.{ℕ, ◌≡◌, ◌≢◌, ap, ◌∙◌, some, List, ◌∷◌, ◌++◌, All}
use asio_chat_server.Ai.SseParser.{new_parser, feed, feed_all}
use asio_chat_server.Ai.SseParser.Chunks.{concat, feed_all-concat}
use asio_chat_server.Ai.SseParser.Events.{AreEvents, stream_text, feed-stream_text}
use asio_chat_server.Ai.HttpClient.{crlf}
use asio_chat_server.Ai.HttpClient.Body.{flat, chunk_length}
use asio_chat_server.Ai.HttpClient.Post.{Peer, Exchanged, receive}
use asio_chat_server.Ai.HttpClient.Chunked.{IsChunk, encode, datas}
use asio_chat_server.Ai.HttpClient.Response.{
  Response, IsResponse, head_of, response_text, chunked_at, receive-chunked,
}

-- The events of a model's answer come through the connection, the chunks and the parser as they were
-- sent, in order and whole, however their text is cut into chunks of a well-formed response, and
-- however that response is cut into reads: for events whose name is not empty and whose data is one
-- line, neither of which ends in a carriage return, sent each as the line of its name, the line of
-- its data and an empty line.
pub receive-events :
    (eof_text : List ℕ) (peer : Peer) (r : Response) (found : List ℕ × List ℕ)
    (es : List (List ℕ × List ℕ)) (c : List ℕ × List ℕ) (cs : List (List ℕ × List ℕ))
    (last rest : List ℕ)
    → IsResponse r
    → chunked_at (head_of r).headers ≡ some found
    → AreEvents es
    → concat (datas (c ∷ cs)) ≡ stream_text es
    → All IsChunk (c ∷ cs)
    → All (λ b. 13 ≢ b) last
    → chunk_length last ≡ 0
    → flat peer.parts ≡ response_text r (encode (c ∷ cs) (last ++ (crlf ++ rest)))
    → feed_all (receive eof_text peer).body.chunks new_parser ≡ record new_parser { events = es }
receive-events eof_text peer r found es c cs last rest v encoded events text vs one_line sized e =
    ap (λ (x : Exchanged). feed_all x.body.chunks new_parser)
      (receive-chunked eof_text peer r found (c ∷ cs) last rest v encoded vs one_line sized e)
    ∙ feed_all-concat c.1 (datas cs) new_parser
    ∙ ap (λ s. feed s new_parser) text
    ∙ feed-stream_text es events
