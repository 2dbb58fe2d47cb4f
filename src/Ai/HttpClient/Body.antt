-- ===== src/Ai/HttpClient/Body.antt =====
-- `Exchange`, `Run` and `StreamPost` of Server/AI/HttpClient.cpp: how the body is read, by its
-- chunks, by its length or up to the end of the connection.
use asio_chat_server.Common.{
  ℕ, zero, suc, ◌+◌, ◌-◌, ◌^◌, ◌%◌, Bool, true, false, Option, none, some, List, [], ◌∷◌, ◌++◌,
  ◌==◌, if◌then◌else◌, leb, ltb, min, length, take, drop, codes, is_empty, get_or,
}
use asio_chat_server.Common.Find.{split_at, from_chars}
use asio_chat_server.Ai.HttpClient.{crlf, to_lower, Headers, find_header}

-- How an exchange ends: it returns, it throws, it reads behind the buffer, or the fuel ran out.
pub data BodyEnd : Type 0 where
  complete : BodyEnd
  thrown : List ℕ → BodyEnd
  overread : BodyEnd
  starved : BodyEnd

-- The calls of `onChunk`, the oldest first, and the end.
pub record Body : Type 0 where
  pub chunks : List (List ℕ)
  pub ended : BodyEnd

abbrev pub ending : BodyEnd → Body
ending e = record { chunks = []; ended = e }

abbrev pub deliver : List ℕ → Body → Body
deliver c b = record { chunks = c ∷ b.chunks; ended = b.ended }

-- What the reads that are still to come return, in order.
abbrev pub Reads : Type 0
Reads = List (List ℕ)

abbrev pub flat : Reads → List ℕ
flat [] = []
flat (p ∷ ps) = p ++ flat ps

-- `fill`; without further reads it is over.
unfoldable pub fill : ℕ → List ℕ → Reads → Bool × (List ℕ × Reads)
fill need buf [] = (leb need (length buf), (buf, []))
fill need buf (p ∷ ps) =
    let rest = fill need (buf ++ p) ps in
    if leb need (length buf) then (true, (buf, p ∷ ps)) else rest

-- The line up to `pat`, what is buffered behind it, and the reads left.
unfoldable pub read_until : List ℕ → List ℕ → Reads → Option (List ℕ × (List ℕ × Reads))
read_until pat buf [] = elim (split_at pat buf) [ none ↦ none | some (l, r) ↦ some (l, (r, [])) ]
read_until pat buf (p ∷ ps) = elim (split_at pat buf) [
  | none ↦ read_until pat (buf ++ p) ps
  | some (l, r) ↦ some (l, (r, p ∷ ps))
]

-- `size_t` arithmetic.
abbrev pub word : ℕ
word = 2 ^ 64

unfoldable pub chunk_length : List ℕ → ℕ
chunk_length line = elim (split_at (codes ";") line) [
  | none ↦ get_or 0 (from_chars 16 word line)
  | some (number, extension) ↦ get_or 0 (from_chars 16 word number)
]

-- How the connection ends when all reads are done: it is closed, or a read throws.
module _ (broken : Option (List ℕ)) where
  -- The end where more was needed.
  unfoldable pub cut_short : BodyEnd → BodyEnd
  cut_short closed = elim broken [ none ↦ closed | some what ↦ thrown what ]

  abbrev pub truncated : Body
  truncated = ending (cut_short (thrown (codes "chunked body truncated")))

  -- A turn of the loop over the chunks, behind the line with the size.
  unfoldable pub after_size : (List ℕ → Reads → Body) → ℕ → Bool × (List ℕ × Reads) → Body
  unfolding cut_short
  after_size next size (false, rest) = truncated
  after_size next size (true, (buf, reads)) =
      if ltb (length buf) size
      then ending overread
      else deliver (take size buf) (next (drop ((size + 2) % word) buf) reads)

  unfoldable pub chunked_body : ℕ → List ℕ → Reads → Body
  unfolding after_size fill read_until chunk_length
  chunked_body zero buf reads = ending starved
  chunked_body (suc n) buf reads = elim (read_until crlf buf reads) [
    | none ↦ truncated
    | some (line, (rest, left)) ↦
        if chunk_length line == 0
        then ending complete
        else after_size (chunked_body n) (chunk_length line)
            (fill ((chunk_length line + 2) % word) rest left)
  ]

  -- A turn of the loop by the length, on what `fill` brought.
  abbrev pub by_length : (ℕ → List ℕ → Body) → ℕ → List ℕ → Body
  by_length next left buf =
      if is_empty buf
      then ending (cut_short complete)
      else deliver (take (min (length buf) left) buf)
          (next (left - min (length buf) left) (drop (min (length buf) left) buf))

  unfoldable pub length_body : ℕ → ℕ → List ℕ → Reads → Body
  unfolding fill cut_short
  length_body zero left buf reads = ending starved
  length_body (suc n) left buf reads =
      let (_, (bytes, rest)) = fill 1 buf reads in
      if left == 0 then ending complete else by_length (λ l b. length_body n l b rest) left bytes

  unfoldable pub open_body : List ℕ → Reads → Body
  unfolding cut_short
  open_body [] [] = ending (cut_short complete)
  open_body (c ∷ buf) [] = deliver (c ∷ buf) (ending (cut_short complete))
  open_body [] (p ∷ ps) = open_body p ps
  open_body (c ∷ buf) (p ∷ ps) = deliver (c ∷ buf) (open_body p ps)

  -- Step 3 of `Exchange`.
  unfoldable pub receive_body : Headers → List ℕ → Reads → Body
  unfolding chunked_body length_body open_body
  receive_body h buf reads =
      let fuel = suc (length buf + length (flat reads)) in
      let coded = get_or [] (find_header (codes "transfer-encoding") h) in
      elim (split_at (codes "chunked") (to_lower coded)) [
        | some found ↦ chunked_body fuel buf reads
        | none ↦ elim (find_header (codes "content-length") h) [
          | some total ↦ length_body fuel (get_or 0 (from_chars 10 word total)) buf reads
          | none ↦ open_body buf reads
        ]
      ]
