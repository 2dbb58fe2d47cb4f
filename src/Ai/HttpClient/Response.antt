-- ===== src/Ai/HttpClient/Response.antt =====
-- `Exchange` of Server/AI/HttpClient.cpp on a whole response: its head, and its body by chunks or by
-- length.
use mathlib.Core.List.{append_assoc, append-nil}
use asio_chat_server.Common.{
  ℕ, suc, ◌+◌, ◌*◌, ◌≤◌, ◌<◌, ◌≡◌, ◌≢◌, refl, sym, ap, subst, ◌∙◌, Option, none, some, List, [],
  ◌∷◌, ◌++◌, arith, All, length, length-append, take, codes, get_or, inl, inr, Option-cases,
  if_both, leb,
}
use asio_chat_server.Common.Int.{pos}
use asio_chat_server.Common.Find.{
  strip_prefix, strip_prefix-other, split_at, split_at-first, split_at-miss, split_at-skip,
  from_chars,
}
use asio_chat_server.Ai.HttpClient.{crlf, to_lower, Headers, find_header, parse_head, ResponseHead}
use asio_chat_server.Ai.HttpClient.Body.{
  complete, starved, Reads, flat, word, chunk_length, cut_short, chunked_body, length_body,
  receive_body,
}
use asio_chat_server.Ai.HttpClient.Post.{Peer, Exchanged, receive}
use asio_chat_server.Ai.HttpClient.Reading.{read_until-found}
use asio_chat_server.Ai.HttpClient.Head.{
  IsHeader, header_text, header_text-line, lines_text, add_all, status_line, IsStatusLine,
  status_line-line, parse_head-lines,
}
use asio_chat_server.Ai.HttpClient.Chunked.{
  IsChunk, encode, datas, chunked_body-encode, chunked_body-fuel,
}
use asio_chat_server.Ai.HttpClient.Length.{
  Delivers, length_end, length_body-Delivers, open_body-Delivers,
}

-- The headers as they are sent, each behind the line break of the line before it, and the body
-- behind the empty line.
abbrev raw_text : List (List ℕ × List ℕ) → List ℕ → List ℕ
raw_text [] body = crlf ++ (crlf ++ body)
raw_text (h ∷ hs) body = crlf ++ (header_text h ++ raw_text hs body)

abbrev inner_text : List (List ℕ × List ℕ) → List ℕ
inner_text [] = []
inner_text (h ∷ hs) = crlf ++ (header_text h ++ inner_text hs)

break_miss :
    (h : List ℕ × List ℕ) (rest : List ℕ)
    → IsHeader h
    → strip_prefix (crlf ++ crlf) (crlf ++ (header_text h ++ rest)) ≡ none
unfolding strip_prefix
break_miss ([], v) rest w = absurd (let named = w.named in omega arith)
break_miss (d ∷ k, v) rest w =
    strip_prefix-other 13 (10 ∷ []) d (k ++ (58 ∷ 32 ∷ v) ++ rest) w.name_line.0

-- The first empty line of a response is the one behind its headers.
split_at-raw :
    (line : List ℕ) (hs : List (List ℕ × List ℕ)) (body : List ℕ)
    → All (λ c. 13 ≢ c) line
    → All IsHeader hs
    → split_at (crlf ++ crlf) (line ++ raw_text hs body) ≡ some (line ++ inner_text hs, body)
split_at-raw line [] body free ws =
    split_at-first 13 (10 ∷ 13 ∷ 10 ∷ []) line body free
    ∙ ap (λ (l : List ℕ). some (l, body)) (sym (append-nil line))
split_at-raw line (h ∷ hs) body free (w, ws) =
    let text = header_text h ++ raw_text hs body in
    split_at-skip 13 (10 ∷ 13 ∷ 10 ∷ []) line (crlf ++ text)
      (crlf ++ (header_text h ++ inner_text hs)) body free
      (split_at-miss (crlf ++ crlf) 13 (10 ∷ text) (10 ∷ header_text h ++ inner_text hs) body
        (break_miss h (raw_text hs body) w)
        (split_at-miss (crlf ++ crlf) 10 text (header_text h ++ inner_text hs) body
          (strip_prefix-other 13 (10 ∷ 13 ∷ 10 ∷ []) 10 text (λ e. absurd (omega arith)))
          (split_at-raw (header_text h) hs body (header_text-line h w) ws)))

inner_text-lines :
    (hs : List (List ℕ × List ℕ))
    → inner_text hs ++ (crlf ++ crlf) ≡ crlf ++ lines_text hs (crlf ++ [])
inner_text-lines [] = refl
inner_text-lines (h ∷ hs) =
    ap (λ w. crlf ++ w)
      (append_assoc (header_text h) (inner_text hs) (crlf ++ crlf)
        ∙ ap (λ w. header_text h ++ w) (inner_text-lines hs))

-- A response as it is sent.
pub record Response : Type 0 where
  pub version : List ℕ
  pub first : ℕ
  pub second : ℕ
  pub third : ℕ
  pub reason : List ℕ
  pub headers : List (List ℕ × List ℕ)

abbrev pub first_line : Response → List ℕ
first_line r = status_line r.version r.first r.second r.third r.reason

abbrev pub response_text : Response → List ℕ → List ℕ
response_text r body = first_line r ++ raw_text r.headers body

abbrev pub head_of : Response → ResponseHead
head_of r = record {
  status = pos ((r.first * 10 + r.second) * 10 + r.third);
  headers = add_all r.headers [];
}

pub record IsResponse (r : Response) : Type 0 where
  pub line : IsStatusLine r.version r.first r.second r.third r.reason
  pub lines : All IsHeader r.headers

-- The head is read as it was sent, and the body from its first byte on.
pub receive-response :
    (eof_text : List ℕ) (peer : Peer) (r : Response) (body : List ℕ)
    → IsResponse r
    → flat peer.parts ≡ response_text r body
    → (rest : List ℕ) × ((left : Reads) × ((receive eof_text peer ≡ record {
      head = some (head_of r);
      body = receive_body peer.broken (head_of r).headers rest left;
    })
          × (rest ++ flat left ≡ body)))
unfolding receive
receive-response eof_text peer r body v e =
    let line = status_line-line r.version r.first r.second r.third r.reason v.line in
    let (rest, (left, (read, whole))) =
      read_until-found 13 (10 ∷ 13 ∷ 10 ∷ []) [] (first_line r ++ inner_text r.headers) body
        peer.parts
        (ap (split_at (crlf ++ crlf)) e
          ∙ split_at-raw (first_line r) r.headers body line v.lines) in
    let text : (first_line r ++ inner_text r.headers) ++ (crlf ++ crlf)
        ≡ first_line r ++ (crlf ++ lines_text r.headers (crlf ++ [])) =
      append_assoc (first_line r) (inner_text r.headers) (crlf ++ crlf)
      ∙ ap (λ w. first_line r ++ w) (inner_text-lines r.headers) in
    let parsed : parse_head ((first_line r ++ inner_text r.headers) ++ (crlf ++ crlf)) ≡ head_of r =
      ap parse_head text
      ∙ parse_head-lines r.version r.first r.second r.third r.reason r.headers [] v.line v.lines in
    (rest, (left, (rw (read, receive) (rw parsed refl), whole)))

-- The test for a body in chunks.
abbrev pub chunked_at : Headers → Option (List ℕ × List ℕ)
chunked_at h =
    split_at (codes "chunked") (to_lower (get_or [] (find_header (codes "transfer-encoding") h)))

length-encode : (cs : List (List ℕ × List ℕ)) (rest : List ℕ) → length cs ≤ length (encode cs rest)
length-encode [] rest = omega arith
length-encode ((line, bytes) ∷ cs) rest =
    let more = length-encode cs rest in
    let tail = crlf ++ encode cs rest in
    let sizes = length-append line (crlf ++ (bytes ++ tail)) in
    let behind = length-append bytes tail in omega arith

-- `StreamPost` on a response in chunks hands out the head and then the chunks, one by one and in
-- order, and returns: for any status line, headers and chunks as they are sent, if the headers name
-- the encoding, whatever follows the last line, and however the response is cut into reads.
pub receive-chunked :
    (eof_text : List ℕ) (peer : Peer) (r : Response) (found : List ℕ × List ℕ)
    (cs : List (List ℕ × List ℕ)) (last rest : List ℕ)
    → IsResponse r
    → chunked_at (head_of r).headers ≡ some found
    → All IsChunk cs
    → All (λ c. 13 ≢ c) last
    → chunk_length last ≡ 0
    → flat peer.parts ≡ response_text r (encode cs (last ++ (crlf ++ rest)))
    → receive eof_text peer
      ≡ record { head = some (head_of r); body = record { chunks = datas cs; ended = complete } }
unfolding receive_body
receive-chunked eof_text peer r found cs last rest v encoded vs one_line sized e =
    let body = encode cs (last ++ (crlf ++ rest)) in
    let (buf, (left, (received, whole))) = receive-response eof_text peer r body v e in
    let fuel = suc (length buf + length (flat left)) in
    let total = ap length whole in
    let sizes = length-append buf (flat left) in
    let counted = length-encode cs (last ++ (crlf ++ rest)) in
    let h = (head_of r).headers in
    let by_chunks : receive_body peer.broken h buf left ≡ chunked_body peer.broken fuel buf left =
      rw (encoded, receive_body) refl in
    received
    ∙ ap (λ b. record { head = some (head_of r); body = b })
        (by_chunks
          ∙ chunked_body-encode peer.broken cs last rest fuel buf left vs one_line sized
              (omega arith) whole)

-- A response with a length and not in chunks hands out its first bytes, as many as the length says or
-- as there are, and returns unless it is too short and a read threw.
pub receive-sized :
    (eof_text : List ℕ) (peer : Peer) (r : Response) (total body : List ℕ)
    → IsResponse r
    → chunked_at (head_of r).headers ≡ none
    → find_header (codes "content-length") (head_of r).headers ≡ some total
    → flat peer.parts ≡ response_text r body
    → ((receive eof_text peer).head ≡ some (head_of r))
      × Delivers
          (take (get_or 0 (from_chars 10 word total)) body)
          (length_end peer.broken (get_or 0 (from_chars 10 word total)) body)
          (receive eof_text peer).body
unfolding receive_body
receive-sized eof_text peer r total body v plain sized e =
    let (buf, (left, (received, whole))) = receive-response eof_text peer r body v e in
    let fuel = suc (length buf + length (flat left)) in
    let n = get_or 0 (from_chars 10 word total) in
    let sizes = length-append buf (flat left) in
    let by_size : receive_body peer.broken (head_of r).headers buf left
        ≡ length_body peer.broken fuel n buf left =
      rw (plain, receive_body) (rw (sized, receive_body) refl) in
    (
      ap (λ (x : Exchanged). x.head) received,
      subst (λ b. Delivers (take n body) (length_end peer.broken n body) b)
          (sym (ap (λ (x : Exchanged). x.body) received ∙ by_size))
          (subst
            (λ w.
              Delivers (take n w) (length_end peer.broken n w)
                (length_body peer.broken fuel n buf left))
            whole (length_body-Delivers peer.broken fuel n buf left (omega arith))),
    )

cut_short-ended : (broken : Option (List ℕ)) → cut_short broken complete ≢ starved
unfolding cut_short
cut_short-ended none e = absurd cc
cut_short-ended (some what) e = absurd cc

-- A body is read to its end, whatever the headers and the bytes are: none of the three loops goes on
-- for ever.
pub receive_body-fuel :
    (broken : Option (List ℕ)) (h : Headers) (buf : List ℕ) (reads : Reads)
    → (receive_body broken h buf reads).ended ≢ starved
unfolding receive_body
receive_body-fuel broken h buf reads = elim (Option-cases (chunked_at h)) [
  | inr (found, encoded) ↦
      rw (encoded, receive_body) (chunked_body-fuel broken fuel buf reads enough)
  | inl plain ↦ elim (Option-cases (find_header (codes "content-length") h)) [
    | inr (total, sized) ↦
        let n = get_or 0 (from_chars 10 word total) in
        rw (plain, receive_body)
          (rw (sized, receive_body)
            (subst (λ x. x ≢ starved)
              (sym (length_body-Delivers broken fuel n buf reads enough).ends)
              (if_both (λ x. x ≢ starved) (leb n (length (buf ++ flat reads))) complete
                (cut_short broken complete) (λ e. absurd cc) (cut_short-ended broken))))
    | inl open' ↦
        rw (plain, receive_body)
          (rw (open', receive_body)
            (subst (λ x. x ≢ starved) (sym (open_body-Delivers broken buf reads).ends)
              (cut_short-ended broken)))
  ]
]
  where
    fuel : ℕ
    fuel = suc (length buf + length (flat reads))

    enough : length (buf ++ flat reads) < fuel
    enough = omega (arith, length-append buf (flat reads))
