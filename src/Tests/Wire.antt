-- ===== src/Tests/Wire.antt =====
-- A run of the writing half of ServerCore/Session.cpp.
use asio_chat_server.Common.{ℕ, ◌≤◌, ◌≡◌, ◌⊎◌, refl, true, false, List, [], ◌∷◌}
use asio_chat_server.ServerCore.Writer.{
  Writer, idle, sends, takes, writes, fails, send_packet, take_front, written, write_failed, Reach,
  here, next,
}
use asio_chat_server.ServerCore.Writer.Order.{Subsequence, writer-order, writer-drains}

-- Two packets are sent, and the first is written.
abbrev one_written : Writer ℕ
one_written = record {
  write_queue = 8 ∷ [];
  is_writing = true;
  loops = 1;
  in_flight = [];
  closing = 0;
  closed = false;
  torn = false;
  wire = 7 ∷ [];
  accepted = 7 ∷ 8 ∷ [];
}

writes_one : Reach idle one_written
unfolding send_packet take_front written
writes_one =
    next (next (next (next here (sends 7)) (sends 8)) (takes 0 refl)) (writes 7 [] [] refl refl)

-- The write of the first packet fails, and before the socket is closed the second one is sent and
-- written.
abbrev first_lost : Writer ℕ
first_lost = record {
  write_queue = [];
  is_writing = true;
  loops = 1;
  in_flight = [];
  closing = 1;
  closed = false;
  torn = true;
  wire = 8 ∷ [];
  accepted = 7 ∷ 8 ∷ [];
}

loses_first : Reach idle first_lost
unfolding send_packet take_front written write_failed
loses_first =
    next
      (next (next (next (next (next here (sends 7)) (takes 0 refl)) (fails 7 [] [] refl)) (sends 8))
        (takes 0 refl))
      (writes 8 [] [] refl refl)

writer-order_example :
    (first_lost.loops ≤ 1)
    × Subsequence {A = ℕ} (8 ∷ []) (7 ∷ 8 ∷ [])
    × (((lost : List ℕ) × (7 ∷ 8 ∷ [] ≡ 8 ∷ lost)) ⊎ (first_lost.torn ≡ true))
writer-order_example = writer-order loses_first

-- Both packets are written, and the coroutine has ended.
abbrev all_written : Writer ℕ
all_written = record {
  write_queue = [];
  is_writing = false;
  loops = 0;
  in_flight = [];
  closing = 0;
  closed = false;
  torn = false;
  wire = 7 ∷ 8 ∷ [];
  accepted = 7 ∷ 8 ∷ [];
}

writes_all : Reach idle all_written
unfolding take_front written
writes_all = next (next (next writes_one (takes 0 refl)) (writes 8 [] [] refl refl)) (takes 0 refl)

writer-drains_example : all_written.accepted ≡ 7 ∷ 8 ∷ []
writer-drains_example = writer-drains writes_all refl refl refl refl
