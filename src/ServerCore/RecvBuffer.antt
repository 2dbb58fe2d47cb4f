-- ===== src/ServerCore/RecvBuffer.antt =====
-- ServerCore/Packet/RecvBuffer.h and RecvBuffer.cpp. The cursors are `int32` that never fall
-- below 0, so they are natural numbers; the capacity is far below 2 ^ 31. `overlapped` is no field of
-- the class: it stands for what `memcpy` leaves of the storage when it copies ranges that overlap,
-- which the language does not define.
pub mod Pending
use asio_chat_server.Common.{
  ℕ, ◌+◌, ◌-◌, ◌*◌, ◌≤◌, ◌<◌, ◌≡◌, refl, Bool, true, false, List, [], ◌∷◌, ◌++◌, arith, ltb, ◌==◌,
  if◌then◌else◌, length, take, drop, replicate,
}

abbrev pub buffer_count : ℕ
buffer_count = 10

pub record RecvBuffer : Type 0 where
  pub capacity : ℕ
  pub buffer_size : ℕ
  pub read_pos : ℕ
  pub write_pos : ℕ
  pub buffer : List ℕ
  pub overlapped : ℕ → ℕ → List ℕ → List ℕ

-- The constructor: `buffer_count` times the packet size, zeroed.
unfoldable pub init : (ℕ → ℕ → List ℕ → List ℕ) → ℕ → RecvBuffer
init overlapped size = record {
  overlapped = overlapped;
  capacity = size * buffer_count;
  buffer_size = size;
  read_pos = 0;
  write_pos = 0;
  buffer = replicate (size * buffer_count) 0;
}

abbrev pub data_size : RecvBuffer → ℕ
data_size b = b.write_pos - b.read_pos

abbrev pub free_size : RecvBuffer → ℕ
free_size b = b.capacity - b.write_pos

-- `memcpy(&Buffer[0], &Buffer[from], n)`: the ranges overlap if `n` is more than `from`.
pub copy_front : (ℕ → ℕ → List ℕ → List ℕ) → ℕ → ℕ → List ℕ → List ℕ
copy_front overlapped from n buf =
    if ltb from n then overlapped from n buf else take n (drop from buf) ++ drop n buf

unfoldable pub clean : RecvBuffer → RecvBuffer
unfolding copy_front
clean b =
    let n = data_size b in
    if n == 0
    then record b { read_pos = 0; write_pos = 0 }
    else if ltb (free_size b) b.buffer_size
    then record b {
      buffer = copy_front b.overlapped b.read_pos n b.buffer;
      read_pos = 0;
      write_pos = n;
    }
    else b

unfoldable pub on_read : ℕ → RecvBuffer → Bool × RecvBuffer
on_read n b =
    if ltb (data_size b) n then (false, b) else (true, record b { read_pos = b.read_pos + n })

unfoldable pub on_write : ℕ → RecvBuffer → Bool × RecvBuffer
on_write n b =
    if ltb (free_size b) n then (false, b) else (true, record b { write_pos = b.write_pos + n })

-- The bytes between the cursors: received and not yet handled.
abbrev pub pending : RecvBuffer → List ℕ
pending b = take (data_size b) (drop b.read_pos b.buffer)

-- What the socket does with the room that it is given: it writes at the write cursor.
unfoldable pub socket_write : List ℕ → RecvBuffer → RecvBuffer
socket_write chunk b = record b {
  buffer = take b.write_pos b.buffer ++ (chunk ++ drop (b.write_pos + length chunk) b.buffer);
}
