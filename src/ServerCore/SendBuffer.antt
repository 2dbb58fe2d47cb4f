-- ===== src/ServerCore/SendBuffer.antt =====
-- ServerCore/Packet/SendBuffer.h and SendBuffer.cpp, as one thread uses them, and
-- `_MakeSendBuffer` of Server/Network/ClientPacketHandler.h. `none` is the crash of an assertion.
-- A chunk of the pool has no buffer left that refers to it, so `Pop` gives it a new number.
pub mod Slices
use asio_chat_server.Common.{
  ℕ, ◌+◌, ◌-◌, Bool, true, false, Option, none, some, List, [], ◌∷◌, ltb, if◌then◌else◌,
}

abbrev pub chunk_size : ℕ
chunk_size = 6000

pub record SendBufferChunk : Type 0 where
  pub number : ℕ
  pub is_open : Bool
  pub used_size : ℕ

-- The bytes of a chunk that a `SendBuffer` points to.
pub record SendBuffer : Type 0 where
  pub owner : ℕ
  pub offset : ℕ
  pub alloc_size : ℕ

-- The chunk of the thread, and how many chunks it has had.
pub record SendBufferManager : Type 0 where
  pub current : Option SendBufferChunk
  pub popped : ℕ

abbrev pub chunk_free : SendBufferChunk → ℕ
chunk_free c = chunk_size - c.used_size

-- `Pop` and `Reset`
abbrev pub pop_chunk : ℕ → SendBufferChunk
pop_chunk number = record { number = number; is_open = false; used_size = 0 }

unfoldable pub open_chunk : ℕ → SendBufferChunk → Option (SendBuffer × SendBufferChunk)
open_chunk n c =
    if ltb (chunk_free c) n
    then none
    else if c.is_open
    then none
    else some (
      record { owner = c.number; offset = c.used_size; alloc_size = n },
      record c { is_open = true },
    )

unfoldable pub close_chunk : ℕ → SendBufferChunk → Option SendBufferChunk
close_chunk n c =
    if c.is_open then some (record c { is_open = false; used_size = c.used_size + n }) else none

-- The chunk that `SendBufferManager::Open` opens the buffer in, with the count of chunks.
unfoldable pub choose_chunk : ℕ → SendBufferManager → Option (SendBufferChunk × ℕ)
choose_chunk n m = elim m.current [
  | none ↦ some (pop_chunk m.popped, m.popped + 1)
  | some c ↦
      if c.is_open
      then none
      else if ltb (chunk_free c) n
      then some (pop_chunk m.popped, m.popped + 1)
      else some (c, m.popped)
]

-- `Open` for a packet of `n` bytes, and `Close` with the same size.
unfoldable pub fill_chunk : ℕ → SendBufferChunk × ℕ → Option (SendBuffer × SendBufferManager)
unfolding open_chunk close_chunk
fill_chunk n (c, popped) = elim (open_chunk n c) [
  | none ↦ none
  | some (b, opened) ↦ elim (close_chunk n opened) [
    | none ↦ none
    | some closed ↦ some (b, record { current = some closed; popped = popped })
  ]
]

unfoldable pub make_send_buffer : ℕ → SendBufferManager → Option (SendBuffer × SendBufferManager)
unfolding choose_chunk fill_chunk
make_send_buffer n m = elim (choose_chunk n m) [ none ↦ none | some chosen ↦ fill_chunk n chosen ]

-- The buffers that a thread makes one after the other.
unfoldable pub make_all : List ℕ → SendBufferManager → Option (List SendBuffer)
unfolding make_send_buffer
make_all [] m = some []
make_all (n ∷ ns) m = elim (make_send_buffer n m) [
  | none ↦ none
  | some (b, m') ↦ elim (make_all ns m') [ none ↦ none | some bs ↦ some (b ∷ bs) ]
]
