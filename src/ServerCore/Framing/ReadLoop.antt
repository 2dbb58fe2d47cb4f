-- ===== src/ServerCore/Framing/ReadLoop.antt =====
-- The read loop of `Session::DoRead` (ServerCore/Session.cpp) over the receive buffer.
use mathlib.Core.List.{append_assoc, append-nil}
use native.Mathlib.Nat.{sub_self}
use asio_chat_server.Common.{
  ℕ, ◌-◌, ◌≤◌, ◌<◌, ◌≡◌, refl, sym, ap, subst, ◌∙◌, some, List, [], ◌∷◌, ◌++◌, arith, length, drop,
}
use asio_chat_server.ServerCore.RecvBuffer.{
  RecvBuffer, init, clean, on_read, pending, data_size, free_size,
}
use asio_chat_server.ServerCore.RecvBuffer.Pending.{
  IsValid, Apart, init-IsValid, clean-IsValid, clean-pending, received, received-IsValid,
  pending-received, pending-on_read, length-pending, on_write-true,
}
use asio_chat_server.ServerCore.Framing.{
  on_received, Turn, again, disconnect, stuck, after_received, read_turn, read_loop,
}
use asio_chat_server.ServerCore.Framing.Segments.{
  IsPackets, IsPartial, stream, total, handle_all, on_received-stream, drop-total, on_received-le,
}
use asio_chat_server.ServerCore.Framing.Resume.{on_received-prefix, on_received-rest}

abbrev pub concat : List (List ℕ) → List ℕ
concat [] = []
concat (c ∷ cs) = c ++ concat cs

module _ {S : Type 0} (handle : List ℕ → S → S) where
  -- `async_read_some` is given the free part of the buffer, and reads no more than that; and what
  -- `clean` moves to the front before does not overlap the place it is moved to.
  abbrev pub Fits : ℕ → List (List ℕ) → RecvBuffer → S → Type 0
  Fits fuel [] b s = Unit
  Fits fuel (c ∷ cs) b s =
      Apart b
      × (length c ≤ free_size (clean b))
      × (elim (read_turn handle fuel c b s) [ again b' s' ↦ Fits fuel cs b' s' | _ ↦ Unit ])

  -- How a loop ended well: in state `t`, with `rest` still in the buffer.
  abbrev pub EndsAt : S → List ℕ → Turn S → Type 0
  EndsAt t rest (again b s) = (s ≡ t) × IsValid b × (pending b ≡ rest)
  EndsAt t rest (disconnect b s) = ⊥
  EndsAt t rest stuck = ⊥

  after_received-again :
      (d : RecvBuffer) (t : S) (n : ℕ)
      → IsValid d
      → n ≤ data_size d
      → after_received d (some (t, n)) ≡ again (on_read n d).1 t
  unfolding after_received
  after_received-again d t n v h = ground (arith, (pending-on_read n d v h).0)

  -- A turn on which the framing loop ends takes the `again` branch.
  pub read_turn-again :
      (fuel : ℕ) (chunk : List ℕ) (b : RecvBuffer) (s t : S) (n : ℕ)
      → IsValid b
      → Apart b
      → length chunk ≤ free_size (clean b)
      → on_received handle fuel (pending b ++ chunk) 0 s ≡ some (t, n)
      → (b' : RecvBuffer) × (read_turn handle fuel chunk b s ≡ again b' t)
        × IsValid b'
        × (pending b' ≡ drop n (pending b ++ chunk))
  unfolding read_turn received
  read_turn-again fuel chunk b s t n v apart h e =
      let vc = clean-IsValid b v apart in
      let d = received chunk (clean b) in
      let vd = received-IsValid chunk (clean b) vc h in
      let same : pending d ≡ pending b ++ chunk =
        pending-received chunk (clean b) vc h ∙ ap (λ p. p ++ chunk) (clean-pending b v apart) in
      let few : n ≤ data_size d = omega (
        arith,
        (on_received-le handle fuel (pending b ++ chunk) 0 s t n e).1,
        length-pending d vd,
        ap length same,
      ) in
      let after = pending-on_read n d vd few in
      (
        (on_read n d).1,
        rw (on_write-true chunk (clean b) h, same, e) (after_received-again d t n vd few),
        after.1,
        after.2 ∙ ap (drop n) same,
      )

  read_loop-again :
      (fuel : ℕ) (c : List ℕ) (cs : List (List ℕ)) (b b' : RecvBuffer) (s u : S)
      → read_turn handle fuel c b s ≡ again b' u
      → read_loop handle fuel (c ∷ cs) b s ≡ read_loop handle fuel cs b' u
  unfolding read_loop
  read_loop-again fuel c cs b b' s u e =
      ap
        (λ (r : Turn S). elim r as (λ _. Turn S) [
          | again b₁ s₁ ↦ read_loop handle fuel cs b₁ s₁
          | disconnect b₁ s₁ ↦ disconnect b₁ s₁
          | stuck ↦ stuck
        ])
        e

  Fits-again :
      (fuel : ℕ) (c : List ℕ) (cs : List (List ℕ)) (b b' : RecvBuffer) (s u : S)
      → read_turn handle fuel c b s ≡ again b' u
      → Fits fuel (c ∷ cs) b s
      → Fits fuel cs b' u
  Fits-again fuel c cs b b' s u e f =
      subst
        (λ (r : Turn S). elim r as (λ _. Type 0) [
          | again b₁ s₁ ↦ Fits fuel cs b₁ s₁
          | _ ↦ Unit {0}
        ])
        e f.2

  -- However the stream is cut, the loop does what the framing loop does on the whole stream.
  pub read_loop-on_received :
      (fuel : ℕ) (c : List ℕ) (cs : List (List ℕ)) (b : RecvBuffer) (s t : S) (n : ℕ)
      → IsValid b
      → Fits fuel (c ∷ cs) b s
      → on_received handle fuel (pending b ++ concat (c ∷ cs)) 0 s ≡ some (t, n)
      → EndsAt t (drop n (pending b ++ concat (c ∷ cs))) (read_loop handle fuel (c ∷ cs) b s)
  read_loop-on_received fuel c [] b s t n v f e =
      let whole : pending b ++ (c ++ []) ≡ pending b ++ c = ap (◌++◌ (pending b)) (append-nil c) in
      let (b', again', v', left) = read_turn-again fuel c b s t n v f.0 f.1 (rw (← whole) e) in
      rw (read_loop-again fuel c [] b b' s t again', whole) (unfold read_loop in (refl, v', left))
  read_loop-on_received fuel c (c' ∷ cs) b s t n v f e =
      let rest = concat (c' ∷ cs) in
      let whole : pending b ++ (c ++ rest) ≡ (pending b ++ c) ++ rest =
        sym (append_assoc (pending b) c rest) in
      let e' : on_received handle fuel ((pending b ++ c) ++ rest) 0 s ≡ some (t, n) =
        rw (← whole) e in
      let (u, k, d) = on_received-prefix handle fuel (pending b ++ c) rest 0 s t n e' in
      let (b', again', v', left) = read_turn-again fuel c b s u k v f.0 f.1 d in
      let (rest_run, rest_left) =
        on_received-rest handle fuel (pending b ++ c) rest s t u n k d e' in
      rw (read_loop-again fuel c (c' ∷ cs) b b' s u again', whole, ← rest_left, ← left)
        (read_loop-on_received fuel c' cs b' u t (n - k) v'
          (Fits-again fuel c (c' ∷ cs) b b' s u again' f) (rw left rest_run))

pending-init :
    (overlapped : ℕ → ℕ → List ℕ → List ℕ) (size : ℕ) → pending (init overlapped size) ≡ []
unfolding init
pending-init overlapped size = ground (arith, sub_self 0)

-- A fresh session that is sent whole packets and the start of another, cut in any way into chunks
-- of which each fits the free part of the buffer when it arrives, handles each packet once and in
-- order, never disconnects, and keeps the start, if no bytes are moved to the front onto a place
-- that overlaps their own. More fuel than packets is enough.
pub read_loop-stream :
    {S : Type 0} (handle : List ℕ → S → S) (overlapped : ℕ → ℕ → List ℕ → List ℕ) (size fuel : ℕ)
    (c : List ℕ) (cs ps : List (List ℕ)) (rest : List ℕ) (s : S)
    → concat (c ∷ cs) ≡ stream ps rest
    → IsPackets ps
    → IsPartial rest
    → length ps < fuel
    → Fits handle fuel (c ∷ cs) (init overlapped size) s
    → EndsAt handle
        (handle_all handle ps s)
        rest
        (read_loop handle fuel (c ∷ cs) (init overlapped size) s)
read_loop-stream handle overlapped size fuel c cs ps rest s e v h lt f =
    rw (← drop-total ps rest, ← e, ← none_left)
      (read_loop-on_received handle fuel c cs (init overlapped size) s (handle_all handle ps s)
        (total ps) (init-IsValid overlapped size) f
        (rw (pending-init overlapped size, e)
          (on_received-stream handle ps rest fuel 0 s v h lt
            ∙ ap (λ n. some (handle_all handle ps s, n)) (omega arith))))
  where
    none_left : pending (init overlapped size) ++ concat (c ∷ cs) ≡ concat (c ∷ cs)
    none_left = ap (λ p. p ++ concat (c ∷ cs)) (pending-init overlapped size)
