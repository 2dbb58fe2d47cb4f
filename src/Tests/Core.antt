-- ===== src/Tests/Core.antt =====
-- Runs of the models of ServerCore and of Server/Security.
use asio_chat_server.Common.{ℕ, ◌≡◌, refl, none, List, [], ◌∷◌, ◌++◌, arith, inl}
use asio_chat_server.ServerCore.RecvBuffer.{init, clean, on_read, on_write, socket_write}
use asio_chat_server.ServerCore.Framing.{on_received, after_received, read_turn, read_loop}
use asio_chat_server.ServerCore.Framing.Segments.{IsPackets, on_received-zero}
use asio_chat_server.ServerCore.Framing.ReadLoop.{Fits, EndsAt, read_loop-stream}

-- A copy of overlapping ranges that spoils the storage.
abbrev spoils : ℕ → ℕ → List ℕ → List ℕ
spoils from n buf = []

-- A handler that keeps the packets.
abbrev keep : List ℕ → List (List ℕ) → List (List ℕ)
keep p ps = ps ++ p ∷ []

abbrev two_packets : List (List ℕ)
two_packets = (4 ∷ 0 ∷ 1 ∷ 0 ∷ []) ∷ (5 ∷ 0 ∷ 2 ∷ 0 ∷ 9 ∷ []) ∷ []

two_packets-IsPackets : IsPackets two_packets
two_packets-IsPackets = (
  record { headed = omega arith; sized = refl },
  (record { headed = omega arith; sized = refl }, tt),
)

abbrev chunks : List (List ℕ)
chunks = (4 ∷ 0 ∷ 1 ∷ []) ∷ (0 ∷ 5 ∷ 0 ∷ 2 ∷ 0 ∷ 9 ∷ 6 ∷ 0 ∷ []) ∷ []

chunks-Fits : Fits keep 3 chunks (init spoils 8) []
unfolding read_turn on_received init clean on_read on_write socket_write after_received
chunks-Fits = (inl (omega arith), omega arith, (inl (omega arith), omega arith, tt))

read_loop-stream_example : EndsAt keep (two_packets) (6 ∷ 0 ∷ []) (
    read_loop keep 3
      ((4 ∷ 0 ∷ 1 ∷ []) ∷ (0 ∷ 5 ∷ 0 ∷ 2 ∷ 0 ∷ 9 ∷ 6 ∷ 0 ∷ []) ∷ [])
      (init spoils 8)
      [])
read_loop-stream_example =
    read_loop-stream keep spoils 8 3 (4 ∷ 0 ∷ 1 ∷ []) ((0 ∷ 5 ∷ 0 ∷ 2 ∷ 0 ∷ 9 ∷ 6 ∷ 0 ∷ []) ∷ [])
      two_packets (6 ∷ 0 ∷ []) [] refl two_packets-IsPackets (λ h. omega arith) (omega arith)
      chunks-Fits

on_received-zero_example : on_received keep 100 (0 ∷ 0 ∷ 1 ∷ 0 ∷ []) 0 [] ≡ none
on_received-zero_example = on_received-zero keep 100 (0 ∷ 0 ∷ 1 ∷ 0 ∷ []) 0 [] (omega arith) refl
