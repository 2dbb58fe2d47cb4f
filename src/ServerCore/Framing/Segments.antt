-- ===== src/ServerCore/Framing/Segments.antt =====
-- What the framing loop of `GameSession::OnReceived` (Server/Network/GameSession.cpp) computes.
use asio_chat_server.Common.{
  drop-all, take-all, ◌||◌, ℕ, zero, suc, ◌+◌, ◌≤◌, ◌<◌, ◌≡◌, refl, sym, ap, ◌∙◌, inl, inr, Bool,
  true, false, none, some, List, [], ◌∷◌, ◌++◌, arith, ltb, length, take, drop, Bool-cases,
  length-drop, length-append, take-append, drop-append, drop-length_append, drop-drop,
}
use asio_chat_server.ServerCore.Framing.{header_size, packet_size, on_received}

-- The size field of a stream that holds one does not depend on what follows.
pub packet_size-append :
    (xs ys : List ℕ) → header_size ≤ length xs → packet_size (xs ++ ys) ≡ packet_size xs
packet_size-append [] ys h = absurd (omega arith)
packet_size-append (a ∷ []) ys h = absurd (omega arith)
packet_size-append (a ∷ b ∷ xs) ys h = refl

-- A whole packet: its size field is its length, and its header is complete.
pub record IsPacket (p : List ℕ) : Type 0 where
  pub headed : header_size ≤ length p
  pub sized : packet_size p ≡ length p

-- The start of a packet whose end has not arrived.
abbrev pub IsPartial : List ℕ → Type 0
IsPartial xs = (header_size ≤ length xs) → length xs < packet_size xs

abbrev pub IsPackets : List (List ℕ) → Type 0
IsPackets [] = Unit
IsPackets (p ∷ ps) = IsPacket p × IsPackets ps

abbrev pub stream : List (List ℕ) → List ℕ → List ℕ
stream [] rest = rest
stream (p ∷ ps) rest = p ++ stream ps rest

abbrev pub total : List (List ℕ) → ℕ
total [] = 0
total (p ∷ ps) = length p + total ps

pub drop-total : (ps : List (List ℕ)) (rest : List ℕ) → drop (total ps) (stream ps rest) ≡ rest
drop-total [] rest = refl
drop-total (p ∷ ps) rest =
    sym (drop-drop (length p) (total ps) (p ++ stream ps rest))
    ∙ rw (drop-length_append p (stream ps rest)) (drop-total ps rest)

-- The loop stops here: there is no whole header, or no whole packet.
abbrev pub waits : List ℕ → Bool
waits xs = ltb (length xs) header_size || ltb (length xs) (packet_size xs)

pub waits-append : (xs ys : List ℕ) → waits xs ≡ false → waits (xs ++ ys) ≡ false
waits-append xs ys h = ground (arith, packet_size-append xs ys, length-append xs ys)

module _ {S : Type 0} (handle : List ℕ → S → S) where
  abbrev pub handle_all : List (List ℕ) → S → S
  handle_all [] s = s
  handle_all (p ∷ ps) s = handle_all ps (handle p s)

  pub on_received-waits :
      (fuel : ℕ) (xs : List ℕ) (n : ℕ) (s : S)
      → waits xs ≡ true
      → on_received handle (suc fuel) xs n s ≡ some (s, n)
  unfolding on_received
  on_received-waits fuel xs n s h = ground arith

  pub on_received-takes :
      (fuel : ℕ) (xs ys : List ℕ) (n : ℕ) (s : S)
      → waits xs ≡ false
      → on_received handle (suc fuel) (xs ++ ys) n s
        ≡ on_received handle fuel
            (drop (packet_size xs) xs ++ ys)
            (n + packet_size xs)
            (handle (take (packet_size xs) xs) s)
  unfolding on_received
  on_received-takes fuel xs ys n s h =
      rw
        (
          packet_size-append xs ys (ground arith),
          take-append (packet_size xs) xs ys (ground arith),
          drop-append (packet_size xs) xs ys (ground arith),
        )
        (ground (arith, length-append xs ys))

  pub on_received-takes_all :
      (fuel : ℕ) (xs : List ℕ) (n : ℕ) (s : S)
      → waits xs ≡ false
      → on_received handle (suc fuel) xs n s
        ≡ on_received handle fuel
            (drop (packet_size xs) xs)
            (n + packet_size xs)
            (handle (take (packet_size xs) xs) s)
  unfolding on_received
  on_received-takes_all fuel xs n s h = ground arith

  -- On whole packets and an incomplete rest the loop ends, runs the handler on each packet in
  -- order, and reports just the bytes of the whole packets.
  pub on_received-stream :
      (ps : List (List ℕ)) (rest : List ℕ) (fuel n : ℕ) (s : S)
      → IsPackets ps
      → IsPartial rest
      → length ps < fuel
      → on_received handle fuel (stream ps rest) n s ≡ some (handle_all ps s, n + total ps)
  on_received-stream [] rest zero n s v h lt = absurd (omega arith)
  on_received-stream [] rest (suc fuel) n s v h lt =
      on_received-waits fuel rest n s (ground arith) ∙ ap (λ k. some (s, k)) (omega arith)
  on_received-stream (p ∷ ps) rest zero n s v h lt = absurd (omega arith)
  on_received-stream (p ∷ ps) rest (suc fuel) n s (v, vs) h lt =
      on_received-takes fuel p (stream ps rest) n s (ground (arith, v.headed, v.sized))
      ∙ rw (v.sized, take-all (length p) p (omega arith), drop-all p)
          (on_received-stream ps rest fuel (n + length p) (handle p s) vs h (omega arith)
            ∙ ap (λ k. some (handle_all ps (handle p s), k)) (omega arith))

  -- A header whose size field is 0 is never passed: no amount of fuel ends the loop.
  pub on_received-zero :
      (fuel : ℕ) (xs : List ℕ) (n : ℕ) (s : S)
      → header_size ≤ length xs
      → packet_size xs ≡ 0
      → on_received handle fuel xs n s ≡ none
  on_received-zero zero xs n s h e = unfold on_received in refl
  on_received-zero (suc fuel) xs n s h e =
      on_received-takes_all fuel xs n s (ground arith)
      ∙ rw e (on_received-zero fuel xs (n + 0) (handle [] s) h e)

  -- The loop never claims more bytes than it was given.
  pub on_received-le :
      (fuel : ℕ) (xs : List ℕ) (n : ℕ) (s t : S) (m : ℕ)
      → on_received handle fuel xs n s ≡ some (t, m)
      → (n ≤ m) × (m ≤ n + length xs)
  on_received-le zero xs n s t m e = unfold on_received in cc
  on_received-le (suc fuel) xs n s t m e = elim (Bool-cases (waits xs)) [
    | inl w ↦ ground (arith, on_received-waits fuel xs n s w)
    | inr w ↦ ground (
      arith,
      on_received-takes_all fuel xs n s w,
      on_received-le fuel (drop (packet_size xs) xs) (n + packet_size xs)
          (handle (take (packet_size xs) xs) s) t m,
      length-drop (packet_size xs) xs,
    )
  ]
