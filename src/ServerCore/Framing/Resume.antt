-- ===== src/ServerCore/Framing/Resume.antt =====
-- The framing loop of `GameSession::OnReceived` on a stream that arrives in two parts.
use native.Mathlib.Nat.{add_assoc, add-zero, sub_self, sub-zero}
use asio_chat_server.Common.{
  sym, ℕ, zero, suc, ◌+◌, ◌-◌, ◌≤◌, ◌≡◌, ap, ◌∙◌, inl, inr, some, List, ◌++◌, arith, length, take,
  drop, Bool-cases, drop-append, drop-drop,
}
use asio_chat_server.ServerCore.Framing.{packet_size, on_received}
use asio_chat_server.ServerCore.Framing.Segments.{
  waits, on_received-waits, on_received-takes, on_received-takes_all, on_received-le,
}

module _ {S : Type 0} (handle : List ℕ → S → S) where
  -- One more round of fuel changes no result.
  pub on_received-suc :
      (fuel : ℕ) (xs : List ℕ) (n : ℕ) (s t : S) (m : ℕ)
      → on_received handle fuel xs n s ≡ some (t, m)
      → on_received handle (suc fuel) xs n s ≡ some (t, m)
  on_received-suc zero xs n s t m e = unfold on_received in cc
  on_received-suc (suc fuel) xs n s t m e = elim (Bool-cases (waits xs)) [
    | inl w ↦
        cc (on_received-waits handle fuel xs n s w, on_received-waits handle (suc fuel) xs n s w)
    | inr w ↦
        rw (on_received-takes_all handle (suc fuel) xs n s w)
          (on_received-suc fuel _ _ _ t m (sym (on_received-takes_all handle fuel xs n s w) ∙ e))
  ]

  -- The count of bytes handled before only shifts the result.
  pub on_received-shift :
      (fuel : ℕ) (xs : List ℕ) (k n : ℕ) (s t : S) (m : ℕ)
      → on_received handle fuel xs (k + n) s ≡ some (t, m)
      → on_received handle fuel xs n s ≡ some (t, m - k)
  on_received-shift zero xs k n s t m e = unfold on_received in cc
  on_received-shift (suc fuel) xs k n s t m e = elim (Bool-cases (waits xs)) [
    | inl w ↦ ground (
      arith,
      on_received-waits handle fuel xs n s w,
      on_received-waits handle fuel xs (k + n) s w,
    )
    | inr w ↦ rw (on_received-takes_all handle fuel xs n s w) (
        on_received-shift fuel (drop (packet_size xs) xs) k (n + packet_size xs)
          (handle (take (packet_size xs) xs) s) t m
          (rw (← add_assoc k n (packet_size xs), ← on_received-takes_all handle fuel xs (k + n) s w)
            e))
  ]

  -- Where the loop ends on a stream it ends on the first part of it.
  pub on_received-prefix :
      (fuel : ℕ) (xs ys : List ℕ) (n : ℕ) (s t : S) (m : ℕ)
      → on_received handle fuel (xs ++ ys) n s ≡ some (t, m)
      → (u : S) × (k : ℕ) × (on_received handle fuel xs n s ≡ some (u, k))
  on_received-prefix zero xs ys n s t m e = unfold on_received in cc
  on_received-prefix (suc fuel) xs ys n s t m e = elim (Bool-cases (waits xs)) [
    | inl w ↦ (s, n, on_received-waits handle fuel xs n s w)
    | inr w ↦ rw (on_received-takes_all handle fuel xs n s w) (
        on_received-prefix fuel (drop (packet_size xs) xs) ys (n + packet_size xs)
          (handle (take (packet_size xs) xs) s) t m
          (sym (on_received-takes handle fuel xs ys n s w) ∙ e))
  ]

  -- Having stopped on the first part, the loop gives on what it left and the second part what it
  -- gives on the whole.
  pub on_received-resume :
      (fuel : ℕ) (xs ys : List ℕ) (n : ℕ) (s t u : S) (m k : ℕ)
      → on_received handle fuel xs n s ≡ some (u, k)
      → on_received handle fuel (xs ++ ys) n s ≡ some (t, m)
      → on_received handle fuel (drop (k - n) xs ++ ys) k u ≡ some (t, m)
  on_received-resume zero xs ys n s t u m k d e = unfold on_received in cc
  on_received-resume (suc fuel) xs ys n s t u m k d e = elim (Bool-cases (waits xs)) [
    | inl w ↦
        let same : (s ≡ u) × (n ≡ k) = ground (arith, on_received-waits handle fuel xs n s w) in
        rw (← same.0, ← same.1, sub_self n) e
    | inr w ↦
        let size = packet_size xs in
        let s' = handle (take size xs) s in
        let d' = sym (on_received-takes_all handle fuel xs n s w) ∙ d in
        let far : drop (k - (n + size)) (drop size xs) ≡ drop (k - n) xs =
          drop-drop size (k - (n + size)) xs
          ∙ ap (λ j. drop j xs)
              (omega (arith, (on_received-le handle fuel (drop size xs) (n + size) s' u k d').0)) in
        on_received-suc fuel (drop (k - n) xs ++ ys) k u t m (
          rw (← far) (
            on_received-resume fuel (drop size xs) ys (n + size) s' t u m k d'
              (sym (on_received-takes handle fuel xs ys n s w) ∙ e)))
  ]

  -- The second part of a stream, from a count of 0, with what is left over at the end.
  pub on_received-rest :
      (fuel : ℕ) (xs ys : List ℕ) (s t u : S) (n k : ℕ)
      → on_received handle fuel xs 0 s ≡ some (u, k)
      → on_received handle fuel (xs ++ ys) 0 s ≡ some (t, n)
      → (on_received handle fuel (drop k xs ++ ys) 0 u ≡ some (t, n - k))
        × (drop (n - k) (drop k xs ++ ys) ≡ drop n (xs ++ ys))
  on_received-rest fuel xs ys s t u n k d e =
      (on_received-shift fuel (drop k xs ++ ys) k 0 u t n (rw (add-zero k) resumed), far)
    where
      resumed : on_received handle fuel (drop k xs ++ ys) k u ≡ some (t, n)
      resumed = rw (sub-zero k) at (on_received-resume fuel xs ys 0 s t u n k d e)

      within : k ≤ length xs
      within = omega (arith, (on_received-le handle fuel xs 0 s u k d).1)

      far : drop (n - k) (drop k xs ++ ys) ≡ drop n (xs ++ ys)
      far = rw (← drop-append k xs ys within) (
          drop-drop k (n - k) (xs ++ ys)
          ∙ ap (λ j. drop j (xs ++ ys))
              (omega (arith, (on_received-le handle fuel (drop k xs ++ ys) k u t n resumed).0)))
