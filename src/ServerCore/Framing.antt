-- ===== src/ServerCore/Framing.antt =====
-- ServerCore/Packet/PacketHeader.h, GameSession::OnReceived of Server/Network/GameSession.cpp
-- and the read loop of ServerCore/Session.cpp.
-- A header is two little-endian 16-bit words, the size of the whole packet and its id. The packet
-- handler is a parameter: a function on the state of the server.
pub mod Segments
pub mod Resume
pub mod ReadLoop
use asio_chat_server.Common.{
  ℕ, zero, suc, ◌+◌, ◌*◌, ◌%◌, ◌/◌, ◌<◌, ◌≤◌, ◌≡◌, Bool, true, false, Option, none, some, List, [],
  ◌∷◌, ◌++◌, ltb, if◌then◌else◌, length, take, drop,
}
use asio_chat_server.ServerCore.RecvBuffer.{
  RecvBuffer, clean, on_read, on_write, pending, data_size, free_size, socket_write,
}

-- `sizeof(PacketHeader)`
abbrev pub header_size : ℕ
header_size = 4

-- A 16-bit field of the header, read where it lies.
abbrev pub word_at : ℕ → List ℕ → ℕ
word_at zero (lo ∷ hi ∷ rest) = lo + 256 * hi
word_at zero short = 0
word_at (suc n) [] = 0
word_at (suc n) (x ∷ rest) = word_at n rest

abbrev pub packet_size : List ℕ → ℕ
packet_size = word_at 0

abbrev pub packet_id : List ℕ → ℕ
packet_id = word_at 2

module _ {S : Type 0} (handle : List ℕ → S → S) where
  -- `GameSession::OnReceived`, with the bytes handled so far as an argument. `none` means that the
  -- fuel ran out: the loop of the source has no bound.
  unfoldable pub on_received : ℕ → List ℕ → ℕ → S → Option (S × ℕ)
  on_received zero bytes processed s = none
  on_received (suc fuel) bytes processed s =
      let size = packet_size bytes in
      let rest =
        on_received fuel (drop size bytes) (processed + size) (handle (take size bytes) s) in
      if ltb (length bytes) header_size
      then some (s, processed)
      else if ltb (length bytes) size
      then some (s, processed)
      else rest

-- How one turn of `Session::DoRead` ends: the loop goes on, the session disconnects, or the
-- framing loop never returns.
pub data Turn (S : Type 0) : Type 0 where
  again : RecvBuffer → S → Turn S
  disconnect : RecvBuffer → S → Turn S
  stuck : Turn S

-- The part of the turn behind `OnReceived`, on what it returned. A negative count cannot come back.
unfoldable pub after_received : {S : Type 0} → RecvBuffer → Option (S × ℕ) → Turn S
after_received b none = stuck
after_received b (some (s, n)) =
    if ltb (data_size b) n
    then disconnect b s
    else if (on_read n b).0
    then again (on_read n b).1 s
    else disconnect b s

-- One turn of the loop: the socket has delivered `chunk` into the cleaned buffer.
unfoldable pub read_turn : {S : Type 0} → (List ℕ → S → S) → ℕ → List ℕ → RecvBuffer → S → Turn S
unfolding after_received
read_turn handle fuel chunk b s =
    let c = socket_write chunk (clean b) in
    let d = on_write (length chunk) c in
    if d.0 then after_received d.1 (on_received handle fuel (pending d.1) 0 s) else disconnect d.1 s

-- The loop over the chunks that the socket delivers, one turn for each.
unfoldable pub read_loop :
    {S : Type 0} → (List ℕ → S → S) → ℕ → List (List ℕ) → RecvBuffer → S → Turn S
unfolding read_turn
read_loop handle fuel [] b s = again b s
read_loop handle fuel (chunk ∷ chunks) b s = elim (read_turn handle fuel chunk b s) [
  | again b' s' ↦ read_loop handle fuel chunks b' s'
  | disconnect b' s' ↦ disconnect b' s'
  | stuck ↦ stuck
]
