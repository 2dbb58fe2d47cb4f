-- ===== src/Ai/HttpClient/Chunked.antt =====
-- The loop over the chunks in `Exchange` of Server/AI/HttpClient.cpp.
use asio_chat_server.Common.{
  ℕ, zero, suc, ◌+◌, ◌-◌, ◌%◌, ◌≤◌, ◌<◌, ◌≡◌, ◌≢◌, ◌⊎◌, refl, sym, ap, ◌∙◌, Bool, true, false,
  Option, none, some, List, [], ◌∷◌, ◌++◌, arith, All, ltb, ◌==◌, length, take, drop, length-append,
  length-drop, drop-drop, take-append, drop-append, take-length_append, drop-length_append, inl,
  inr, Bool-cases, Option-cases,
}
use asio_chat_server.Common.Find.{split_at}
use asio_chat_server.Ai.HttpClient.{crlf}
use asio_chat_server.Ai.HttpClient.Body.{
  BodyEnd, complete, starved, Body, ending, deliver, Reads, flat, fill, read_until, word,
  chunk_length, cut_short, truncated, after_size, chunked_body,
}
use asio_chat_server.Ai.HttpClient.Reading.{
  Line, fill-enough, fill-short, fill-whole, read_until-line, read_until-none, read_until-whole,
}

-- A chunk as it is sent: the line with its size, in any spelling that is read as the length of the
-- data, and the data.
pub record IsChunk (chunk : List ℕ × List ℕ) : Type 0 where
  pub one_line : All (λ c. 13 ≢ c) chunk.0
  pub sized : chunk_length chunk.0 ≡ length chunk.1
  pub filled : 0 < length chunk.1
  pub fits : length chunk.1 + 2 < word

-- The data behind a line, or its end, did not come whole.
pub record IsShort (tail line bytes : List ℕ) : Type 0 where
  pub stream : tail ≡ line ++ (crlf ++ bytes)
  pub one_line : All (λ c. 13 ≢ c) line
  pub filled : 0 < chunk_length line
  pub fits : chunk_length line + 2 < word
  pub short : length bytes < chunk_length line + 2

abbrev pub IsCut : List ℕ → Type 0
IsCut tail =
    (split_at crlf tail ≡ none) ⊎ ((line : List ℕ) × ((bytes : List ℕ) × IsShort tail line bytes))

abbrev pub encode : List (List ℕ × List ℕ) → List ℕ → List ℕ
encode [] rest = rest
encode ((line, bytes) ∷ cs) rest = line ++ (crlf ++ (bytes ++ (crlf ++ encode cs rest)))

abbrev pub datas : List (List ℕ × List ℕ) → List (List ℕ)
datas [] = []
datas ((line, bytes) ∷ cs) = bytes ∷ datas cs

abbrev pub deliver_all : List (List ℕ) → Body → Body
deliver_all [] b = b
deliver_all (c ∷ cs) b = deliver c (deliver_all cs b)

module _ (broken : Option (List ℕ)) where
  -- What is cut off the buffer behind the size.
  after_size-filled :
      (next : List ℕ → Reads → Body) (bytes tail b : List ℕ) (left : Reads)
      → length bytes + 2 < word
      → length bytes + 2 ≤ length b
      → b ++ flat left ≡ bytes ++ (crlf ++ tail)
      → (b' : List ℕ) × ((after_size broken next (length bytes) (true, (b, left))
            ≡ deliver bytes (next b' left))
          × (b' ++ flat left ≡ tail))
  unfolding after_size
  after_size-filled next bytes tail b left fits room e =
      let n = length bytes in
      let enough : ltb (length b) n ≡ false = ground arith in
      let small : (n + 2) % word ≡ n + 2 = omega arith in
      let body : take n b ≡ bytes =
        sym (take-append n b (flat left) (omega arith))
        ∙ ap (take n) e
        ∙ take-length_append bytes (crlf ++ tail) in
      let tail' : drop (n + 2) b ++ flat left ≡ tail =
        sym (drop-append (n + 2) b (flat left) room)
        ∙ ap (drop (n + 2)) e
        ∙ sym (drop-drop n 2 (bytes ++ (crlf ++ tail)))
        ∙ ap (drop 2) (drop-length_append bytes (crlf ++ tail)) in
      (drop (n + 2) b, (rw (enough, small, body) refl, tail'))

  chunked_body-sized :
      (n size : ℕ) (buf : List ℕ) (reads : Reads) (x : Line) (y : Bool × (List ℕ × Reads))
      → read_until crlf buf reads ≡ some x
      → chunk_length x.0 ≡ size
      → 0 < size
      → fill ((size + 2) % word) x.1.0 x.1.1 ≡ y
      → chunked_body broken (suc n) buf reads ≡ after_size broken (chunked_body broken n) size y
  unfolding chunked_body
  chunked_body-sized n size buf reads (line, (r, qs)) y read sized more filled =
      let going : (size == 0) ≡ false = ground arith in
      rw (read, chunked_body) (rw (sized, chunk_length) (rw (going, filled) refl))

  -- One turn of the loop on a stream that starts by a chunk.
  chunked_body-turn :
      (n : ℕ) (chunk : List ℕ × List ℕ) (tail buf : List ℕ) (reads : Reads)
      → IsChunk chunk
      → buf ++ flat reads ≡ chunk.0 ++ (crlf ++ (chunk.1 ++ (crlf ++ tail)))
      → (b : List ℕ) × ((left : Reads) × ((chunked_body broken (suc n) buf reads
              ≡ deliver chunk.1 (chunked_body broken n b left))
            × (b ++ flat left ≡ tail)))
  chunked_body-turn n (line, bytes) tail buf reads v e =
      let size = length bytes in
      let small : (size + 2) % word ≡ size + 2 = (let fits = v.fits in omega arith) in
      let (r, (qs, (read, behind))) =
        read_until-line 13 (10 ∷ []) buf line (bytes ++ (crlf ++ tail)) reads v.one_line e in
      let total = ap length behind ∙ length-append bytes (crlf ++ tail) in
      let (b, (left, (filled, (whole, room)))) = fill-enough (size + 2) r qs (omega arith) in
      let (b', (cut, last)) =
        after_size-filled (chunked_body broken n) bytes tail b left v.fits room (whole ∙ behind) in
      (
        b',
        (
          left,
          (
            chunked_body-sized n size buf reads (line, (r, qs)) (true, (b, left)) read v.sized
                  v.filled (ap (λ k. fill k r qs) small ∙ filled)
                ∙ cut,
            last,
          ),
        ),
      )

  chunked_body-chunks :
      (cs : List (List ℕ × List ℕ)) (m n : ℕ) (tail buf : List ℕ) (reads : Reads)
      → All IsChunk cs
      → n ≡ length cs + m
      → buf ++ flat reads ≡ encode cs tail
      → (b : List ℕ) × ((left : Reads) × ((chunked_body broken n buf reads
              ≡ deliver_all (datas cs) (chunked_body broken m b left))
            × (b ++ flat left ≡ tail)))
  chunked_body-chunks [] m n tail buf reads vs h e =
      let same : n ≡ m = omega arith in
      (buf, (reads, (ap (λ k. chunked_body broken k buf reads) same, e)))
  chunked_body-chunks (c ∷ cs) m zero tail buf reads vs h e = absurd (omega arith)
  chunked_body-chunks (c ∷ cs) m (suc n) tail buf reads (v, vs) h e =
      let (b, (left, (turn, rest))) = chunked_body-turn n c (encode cs tail) buf reads v e in
      let (b', (left', (turns, last))) =
        chunked_body-chunks cs m n tail b left vs (omega arith) rest in
      (b', (left', (turn ∙ ap (deliver c.1) turns, last)))

  chunked_body-zero :
      (n : ℕ) (buf : List ℕ) (reads : Reads) (x : Line)
      → read_until crlf buf reads ≡ some x
      → chunk_length x.0 ≡ 0
      → chunked_body broken (suc n) buf reads ≡ ending complete
  unfolding chunked_body
  chunked_body-zero n buf reads (line, (r, qs)) read sized =
      rw (read, chunked_body) (rw (sized, chunk_length) refl)

  chunked_body-no_line :
      (n : ℕ) (buf : List ℕ) (reads : Reads)
      → read_until crlf buf reads ≡ none
      → chunked_body broken (suc n) buf reads ≡ truncated broken
  unfolding chunked_body
  chunked_body-no_line n buf reads none_read = rw (none_read, chunked_body) refl

  -- The stream breaks off in a chunk whose data is shorter than its line says.
  chunked_body-broken :
      (n : ℕ) (tail buf : List ℕ) (reads : Reads)
      → IsCut tail
      → buf ++ flat reads ≡ tail
      → chunked_body broken (suc n) buf reads ≡ truncated broken
  unfolding after_size
  chunked_body-broken n tail buf reads (inl no_line) e =
      chunked_body-no_line n buf reads
        (read_until-none 13 (10 ∷ []) buf reads (ap (split_at crlf) e ∙ no_line))
  chunked_body-broken n tail buf reads (inr (line, (bytes, v))) e =
      let size = chunk_length line in
      let small : (size + 2) % word ≡ size + 2 = (let fits = v.fits in omega arith) in
      let (r, (qs, (read, behind))) =
        read_until-line 13 (10 ∷ []) buf line bytes reads v.one_line (e ∙ v.stream) in
      let short : length (r ++ flat qs) < size + 2 = rw behind v.short in
      chunked_body-sized n size buf reads (line, (r, qs)) (false, (r ++ flat qs, [])) read refl
        v.filled (ap (λ k. fill k r qs) small ∙ fill-short (size + 2) r qs short)

  deliver_all-ending :
      (cs : List (List ℕ)) (e : BodyEnd)
      → deliver_all cs (ending e) ≡ record { chunks = cs; ended = e }
  deliver_all-ending [] e = refl
  deliver_all-ending (c ∷ cs) e = ap (deliver c) (deliver_all-ending cs e)

  -- A body that is sent in chunks is handed out chunk by chunk, in order, and ends well: for any
  -- chunks that are not empty, a last line that is read as the size 0, anything behind it, any cut of
  -- the stream into reads, and fuel for one turn more than there are chunks.
  pub chunked_body-encode :
      (cs : List (List ℕ × List ℕ)) (last rest : List ℕ) (n : ℕ) (buf : List ℕ) (reads : Reads)
      → All IsChunk cs
      → All (λ c. 13 ≢ c) last
      → chunk_length last ≡ 0
      → length cs < n
      → buf ++ flat reads ≡ encode cs (last ++ (crlf ++ rest))
      → chunked_body broken n buf reads ≡ record { chunks = datas cs; ended = complete }
  chunked_body-encode cs last rest n buf reads vs one_line sized h e =
      let m = n - length cs - 1 in
      let (b, (left, (turns, tail))) =
        chunked_body-chunks cs (suc m) n (last ++ (crlf ++ rest)) buf reads vs (omega arith) e in
      let (r, (qs, (read, behind))) = read_until-line 13 (10 ∷ []) b last rest left one_line tail in
      turns
      ∙ ap (deliver_all (datas cs)) (chunked_body-zero m b left (last, (r, qs)) read sized)
      ∙ deliver_all-ending (datas cs) complete

  -- A body in chunks that breaks off before the next line is whole, or in the data behind it, hands
  -- out the chunks that came whole and nothing else, and ends by an exception: the one of the
  -- connection if there is one, else "chunked body truncated".
  pub chunked_body-cut :
      (cs : List (List ℕ × List ℕ)) (tail : List ℕ) (n : ℕ) (buf : List ℕ) (reads : Reads)
      → All IsChunk cs
      → IsCut tail
      → length cs < n
      → buf ++ flat reads ≡ encode cs tail
      → chunked_body broken n buf reads
        ≡ record { chunks = datas cs; ended = (truncated broken).ended }
  chunked_body-cut cs tail n buf reads vs short h e =
      let m = n - length cs - 1 in
      let (b, (left, (turns, rest))) =
        chunked_body-chunks cs (suc m) n tail buf reads vs (omega arith) e in
      turns
      ∙ ap (deliver_all (datas cs)) (chunked_body-broken m tail b left short rest)
      ∙ deliver_all-ending (datas cs) (truncated broken).ended

  truncated-ended : (truncated broken).ended ≢ starved
  unfolding cut_short
  truncated-ended e = elim (Option-cases broken) [
    | inl closed ↦ let f = rw (closed, cut_short) at e in absurd cc
    | inr (what, bad) ↦ let f = rw (bad, cut_short) at e in absurd cc
  ]

  after_size-ended :
      (n : ℕ) (next : List ℕ → Reads → Body) (size : ℕ) (y : Bool × (List ℕ × Reads))
      → ((b : List ℕ) (left : Reads) → length (b ++ flat left) < n → (next b left).ended ≢ starved)
      → length (y.1.0 ++ flat y.1.1) < n
      → (after_size broken next size y).ended ≢ starved
  unfolding after_size
  after_size-ended n next size (false, (b, left)) ends h = truncated-ended
  after_size-ended n next size (true, (b, left)) ends h = elim (Bool-cases (ltb (length b) size)) [
    | inl over ↦ rw over (λ e. absurd cc)
    | inr fine ↦
        let cut = (size + 2) % word in
        let sizes = length-append b (flat left) in
        let rest = length-append (drop cut b) (flat left) in
        let dropped = length-drop cut b in rw fine (ends (drop cut b) left (omega arith))
  ]

  -- The loop over the chunks ends by itself: fuel of one turn more than there are bytes is never
  -- used up, whatever the bytes are.
  pub chunked_body-fuel :
      (n : ℕ) (buf : List ℕ) (reads : Reads)
      → length (buf ++ flat reads) < n
      → (chunked_body broken n buf reads).ended ≢ starved
  chunked_body-fuel zero buf reads h = absurd (omega arith)
  chunked_body-fuel (suc n) buf reads h = elim (Option-cases (read_until crlf buf reads)) [
    | inl none_read ↦ rw (chunked_body-no_line n buf reads none_read) truncated-ended
    | inr (x, read) ↦
        let behind = x.1.0 ++ flat x.1.1 in
        let whole =
          ap length (read_until-whole crlf buf reads x read) ∙ length-append x.0 (crlf ++ behind) in
        let y = fill ((chunk_length x.0 + 2) % word) x.1.0 x.1.1 in
        elim (Bool-cases (chunk_length x.0 == 0)) [
          | inl nothing ↦
              let e : chunk_length x.0 ≡ 0 = grind arith in
              rw (chunked_body-zero n buf reads x read e) (λ f. absurd cc)
          | inr more ↦
              rw
                (chunked_body-sized n (chunk_length x.0) buf reads x y read refl (grind arith) refl)
                (after_size-ended n (chunked_body broken n) (chunk_length x.0) y
                  (chunked_body-fuel n)
                  (rw (fill-whole ((chunk_length x.0 + 2) % word) x.1.0 x.1.1) (omega arith)))
        ]
  ]
