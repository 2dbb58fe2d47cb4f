-- ===== src/Ai/HttpClient/Post.antt =====
-- `Exchange`, `Run` and `StreamPost` of Server/AI/HttpClient.cpp. What the network brings is a
-- parameter.
use asio_chat_server.Common.{
  ℕ, Bool, Option, none, some, List, [], ◌++◌, ◌⊎◌, inl, inr, if◌then◌else◌, bytes_eq, codes,
  is_empty,
}
use asio_chat_server.Ai.HttpClient.{crlf, Request, build_request_text, ResponseHead, parse_head}
use asio_chat_server.Ai.HttpClient.Body.{thrown, Body, ending, Reads, read_until, receive_body}

-- A connection: the error of the write, what the reads return, and the error after them, or the
-- orderly end.
pub record Peer : Type 0 where
  pub write_error : Option (List ℕ)
  pub parts : Reads
  pub broken : Option (List ℕ)

-- The texts of two exceptions, and what is reached at a host and a port, with TLS or without: an
-- error, or the connection for the text that is written to it.
pub record Network : Type 0 where
  pub eof_text : List ℕ
  pub reach : Bool → List ℕ → List ℕ → List ℕ ⊎ (List ℕ → Peer)

-- The call of `onHead`, if there was one, and the body.
pub record Exchanged : Type 0 where
  pub head : Option ResponseHead
  pub body : Body

abbrev pub failed : List ℕ → Exchanged
failed what = record { head = none; body = ending (thrown what) }

abbrev pub eof_error : List ℕ → Peer → List ℕ
eof_error eof_text peer = elim peer.broken [ none ↦ eof_text | some what ↦ what ]

-- Step 2: the head goes up to the empty line, the rest of the buffer is body.
unfoldable pub receive : List ℕ → Peer → Exchanged
receive eof_text peer = elim (read_until (crlf ++ crlf) [] peer.parts) [
  | none ↦ failed (eof_error eof_text peer)
  | some (text, (rest, left)) ↦
      let head = parse_head (text ++ (crlf ++ crlf)) in
      record { head = some head; body = receive_body peer.broken head.headers rest left }
]

unfoldable pub exchange : List ℕ → (List ℕ → Peer) → Request → Exchanged
unfolding receive
exchange eof_text connection req =
    let peer = connection (build_request_text req) in
    elim peer.write_error [ some what ↦ failed what | none ↦ receive eof_text peer ]

-- `Run`
unfoldable pub run_request : Network → Request → Exchanged
unfolding exchange
run_request net req =
    let tls = bytes_eq req.scheme (codes "https") in
    let port = if is_empty req.port then (if tls then codes "443" else codes "80") else req.port in
    elim (net.reach tls req.host port) [
      | inl what ↦ failed what
      | inr connection ↦ exchange net.eof_text connection (record req { port = port })
    ]

-- `StreamPost`; if the timer won, the reads are those before it.
unfoldable pub stream_post : Network → Bool → Request → Exchanged
unfolding run_request
stream_post net expired req =
    let x = run_request net req in
    if expired
    then record x { body = record x.body { ended = thrown (codes "HTTP request timed out") } }
    else x
