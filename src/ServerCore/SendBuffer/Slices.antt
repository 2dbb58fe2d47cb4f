-- ===== src/ServerCore/SendBuffer/Slices.antt =====
-- The buffers of ServerCore/Packet/SendBuffer.cpp do not overlap.
use asio_chat_server.Common.{
  ℕ, ◌+◌, ◌≤◌, ◌<◌, ◌≡◌, ◌≢◌, ◌⊎◌, inl, inr, refl, false, Option, none, some, List, [], ◌∷◌, arith,
  ltb, Bool-cases,
}
use asio_chat_server.ServerCore.SendBuffer.{
  chunk_size, SendBufferChunk, SendBuffer, SendBufferManager, chunk_free, pop_chunk, open_chunk,
  close_chunk, choose_chunk, fill_chunk, make_send_buffer, make_all,
}

-- A closed chunk that the thread got, filled no further than its end.
abbrev pub ChunkOk : ℕ → Option SendBufferChunk → Type 0
ChunkOk popped none = Unit
ChunkOk popped (some c) = (c.is_open ≡ false) × ((c.used_size ≤ chunk_size) × (c.number < popped))

abbrev pub ManagerOk : SendBufferManager → Type 0
ManagerOk m = ChunkOk m.popped m.current

-- No buffer that the thread makes from here on starts before this point of this chunk.
abbrev pub Filled : SendBuffer → ℕ → Option SendBufferChunk → Type 0
Filled b popped none = b.owner < popped
Filled b popped (some c) =
    (b.owner < c.number) ⊎ ((b.owner ≡ c.number) × (b.offset + b.alloc_size ≤ c.used_size))

abbrev pub Inside : SendBuffer → Type 0
Inside b = b.offset + b.alloc_size ≤ chunk_size

-- The second buffer shares no byte with the first: it is in another chunk, or behind it.
abbrev pub Apart : SendBuffer → SendBuffer → Type 0
Apart b c = (b.owner ≢ c.owner) ⊎ (b.offset + b.alloc_size ≤ c.offset)

-- What one new buffer is: inside its chunk, of the size asked for, and in order with the state.
pub record Made (n : ℕ) (m : SendBufferManager) (b : SendBuffer) (m' : SendBufferManager)
    : Type 0 where
  pub made : make_send_buffer n m ≡ some (b, m')
  pub kept : ManagerOk m'
  pub inside : Inside b
  pub sized : b.alloc_size ≡ n
  pub filled : Filled b m'.popped m'.current
  pub later :
      (c : SendBuffer) → Filled c m.popped m.current → Apart c b × Filled c m'.popped m'.current

-- The state of a thread, in parts.
abbrev state : Option SendBufferChunk → ℕ → SendBufferManager
state current popped = record { current = current; popped = popped }

abbrev filled_chunk : ℕ → SendBufferChunk → SendBufferChunk
filled_chunk n c = record c { is_open = false; used_size = c.used_size + n }

abbrev slice : ℕ → SendBufferChunk → SendBuffer
slice n c = record { owner = c.number; offset = c.used_size; alloc_size = n }

-- A new chunk is taken.
fresh-Made :
    (n : ℕ) (current : Option SendBufferChunk) (popped : ℕ)
    → n ≤ chunk_size
    → choose_chunk n (state current popped) ≡ some (pop_chunk popped, popped + 1)
    → ((c : SendBuffer) → Filled c popped current → c.owner < popped)
    → Made n
        (state current popped)
        (slice n (pop_chunk popped))
        (state (some (filled_chunk n (pop_chunk popped))) (popped + 1))
unfolding make_send_buffer fill_chunk open_chunk close_chunk
fresh-Made n current popped h e old = record {
  made = ground (arith, e);
  kept = (refl, (omega arith, omega arith));
  inside = omega arith;
  sized = refl;
  filled = inr (refl, omega arith);
  later = λ c f. (inl (λ s. omega (arith, old c f, s)), inl (old c f));
}

-- The chunk of the thread has room.
reused-Made :
    (n : ℕ) (c : SendBufferChunk) (popped : ℕ)
    → ChunkOk popped (some c)
    → ltb (chunk_free c) n ≡ false
    → Made n (state (some c) popped) (slice n c) (state (some (filled_chunk n c)) popped)
unfolding make_send_buffer choose_chunk fill_chunk open_chunk close_chunk
reused-Made n c popped v room = record {
  made = ground (arith, v.0, room);
  kept = (refl, (ground (arith, v.1.0, room), v.1.1));
  inside = ground (arith, v.1.0, room);
  sized = refl;
  filled = inr (refl, omega arith);
  later = λ d f. elim f [
    | inl lower ↦ (inl (λ s. omega (arith, lower, s)), inl lower)
    | inr (same, ends) ↦ (inr ends, inr (same, omega (arith, ends)))
  ];
}

make_send_buffer-Made :
    (n : ℕ) (current : Option SendBufferChunk) (popped : ℕ)
    → ChunkOk popped current
    → n ≤ chunk_size
    → (b : SendBuffer) × (m' : SendBufferManager) × Made n (state current popped) b m'
unfolding choose_chunk
make_send_buffer-Made n none popped v h = (_, _, fresh-Made n none popped h refl (λ c f. f))
make_send_buffer-Made n (some c) popped v h = elim (Bool-cases (ltb (chunk_free c) n)) [
  | inl full ↦ (
    _,
    _,
    fresh-Made n (some c) popped h (ground (arith, v.0, full)) (λ d f. ground (arith, v.1.1, f)),
  )
  | inr room ↦ (_, _, reused-Made n c popped v room)
]

abbrev pub AllFit : List ℕ → Type 0
AllFit [] = Unit
AllFit (n ∷ ns) = (n ≤ chunk_size) × AllFit ns

abbrev pub EachApart : SendBuffer → List SendBuffer → Type 0
EachApart b [] = Unit
EachApart b (c ∷ cs) = Apart b c × EachApart b cs

-- Each buffer has the size asked for, lies inside its chunk, and shares no byte with a later one.
abbrev pub Laid : List ℕ → List SendBuffer → Type 0
Laid [] [] = Unit
Laid [] (b ∷ bs) = ⊥
Laid (n ∷ ns) [] = ⊥
Laid (n ∷ ns) (b ∷ bs) = (b.alloc_size ≡ n) × (Inside b × (EachApart b bs × Laid ns bs))

make_all-cons :
    (n : ℕ) (ns : List ℕ) (m m' : SendBufferManager) (b : SendBuffer) (bs : List SendBuffer)
    → make_send_buffer n m ≡ some (b, m')
    → make_all ns m' ≡ some bs
    → make_all (n ∷ ns) m ≡ some (b ∷ bs)
unfolding make_all
make_all-cons n ns m m' b bs e f = rw (e, make_all) (rw (f, make_all) refl)

make_all-Laid :
    (ns : List ℕ) (m : SendBufferManager)
    → ManagerOk m
    → AllFit ns
    → (bs : List SendBuffer) × (make_all ns m ≡ some bs)
      × Laid ns bs
      × ((c : SendBuffer) → Filled c m.popped m.current → EachApart c bs)
unfolding make_all
make_all-Laid [] m v fit = ([], refl, tt, λ c f. tt)
make_all-Laid (n ∷ ns) m v (fits, fit) =
    let (b, m', one) = make_send_buffer-Made n m.current m.popped v fits in
    let (bs, rest, laid, after) = make_all-Laid ns m' one.kept fit in
    (
      b ∷ bs,
      make_all-cons n ns m m' b bs one.made rest,
      (one.sized, (one.inside, (after b one.filled, laid))),
      λ c f. let l = one.later c f in (l.0, after c l.1),
    )

-- A thread that makes buffers for packets of at most 6000 bytes never fails an assertion, and gets
-- for each packet a buffer of its size inside a chunk, no two of which share a byte.
pub make_all-disjoint :
    (ns : List ℕ)
    → AllFit ns
    → (bs : List SendBuffer) × (make_all ns (record { current = none; popped = 0 }) ≡ some bs)
      × Laid ns bs
make_all-disjoint ns fit =
    let (bs, made, laid, _) = make_all-Laid ns (record { current = none; popped = 0 }) tt fit in
    (bs, made, laid)

-- A packet that is longer than a chunk fails an assertion, whatever the state of the thread.
pub make_send_buffer-crashes :
    (n : ℕ) (m : SendBufferManager) → chunk_size < n → make_send_buffer n m ≡ none
unfolding make_send_buffer choose_chunk fill_chunk open_chunk
make_send_buffer-crashes n m h = go n m.current m.popped h
  where
    go :
        (n : ℕ) (current : Option SendBufferChunk) (popped : ℕ)
        → chunk_size < n
        → make_send_buffer n (state current popped) ≡ none
    go n none popped h = ground arith
    go n (some c) popped h = ground arith
