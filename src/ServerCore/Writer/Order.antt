-- ===== src/ServerCore/Writer/Order.antt =====
-- One coroutine writes at a time, and what is on the wire is in the order of the calls of `Send`
-- (ServerCore/Session.cpp).
use mathlib.Core.List.{append_assoc, append-nil}
use asio_chat_server.Common.{
  ℕ, suc, ◌+◌, ◌≤◌, ◌<◌, ◌≡◌, refl, ap, sym, subst, true, false, Bool-cases, List, [], ◌∷◌, ◌++◌,
  arith, if◌then◌else◌, length, length-append, inl, inr, ◌⊎◌,
}
use asio_chat_server.ServerCore.Writer.{
  Writer, send_packet, take_front, written, write_failed, disconnect_failed, disconnect, idle, Step,
  sends, takes, writes, fails, closes, disconnects, Reach, here, next,
}

module _ {ℓ} {A : Type ℓ} where
  -- The first list is the second one without some of its elements.
  abbrev pub Subsequence : List A → List A → Type ℓ
  Subsequence xs [] = xs ≡ []
  Subsequence xs (y ∷ ys) =
      Subsequence xs ys ⊎ ((rest : List A) × (xs ≡ y ∷ rest) × Subsequence rest ys)

  Subsequence-nil : (ys : List A) → Subsequence [] ys
  Subsequence-nil [] = refl
  Subsequence-nil (y ∷ ys) = inl (Subsequence-nil ys)

  Subsequence-snoc :
      (xs ys : List A) (a : A) → Subsequence xs ys → Subsequence (xs ++ a ∷ []) (ys ++ a ∷ [])
  Subsequence-snoc xs [] a e = inr ([], ap (λ (l : List A). l ++ a ∷ []) e, refl)
  Subsequence-snoc xs (y ∷ ys) a (inl s) = inl (Subsequence-snoc xs ys a s)
  Subsequence-snoc xs (y ∷ ys) a (inr (rest, e, s)) =
      inr (rest ++ a ∷ [], ap (λ (l : List A). l ++ a ∷ []) e, Subsequence-snoc rest ys a s)

  -- The front of one is one.
  Subsequence-front : (xs ys zs : List A) → Subsequence (xs ++ ys) zs → Subsequence xs zs
  Subsequence-front [] ys zs s = Subsequence-nil zs
  Subsequence-front (x ∷ xs) ys [] e = absurd cc
  Subsequence-front (x ∷ xs) ys (z ∷ zs) (inl s) = inl (Subsequence-front (x ∷ xs) ys zs s)
  Subsequence-front (x ∷ xs) ys (z ∷ zs) (inr (rest, e, s)) =
      let same : xs ++ ys ≡ rest = cc in
      let first : x ≡ z = cc in
      inr (
        xs,
        ap (λ (c : A). c ∷ xs) first,
        Subsequence-front xs ys zs (subst (λ (l : List A). Subsequence l zs) (sym same) s),
      )

  pub record IsValid (w : Writer A) : Type ℓ where
    pub one : length w.in_flight + w.loops ≡ (if w.is_writing then 1 else 0)
    pub rests : w.is_writing ≡ false → w.write_queue ≡ []
    pub fifo : w.torn ≡ false → w.accepted ≡ w.wire ++ (w.in_flight ++ w.write_queue)
    pub ordered : Subsequence (w.wire ++ (w.in_flight ++ w.write_queue)) w.accepted
    pub ending : (w.torn ≡ false) ⊎ ((w.closed ≡ true) ⊎ (0 < w.closing))

  List-cases : (xs : List A) → (xs ≡ []) ⊎ ((x : A) × (rest : List A) × (xs ≡ x ∷ rest))
  List-cases [] = inl refl
  List-cases (x ∷ xs) = inr (x, xs, refl)

  none_left : (xs : List A) → length xs ≡ 0 → xs ≡ []
  none_left [] h = refl
  none_left (x ∷ xs) h = absurd (omega arith)

  alone :
      (a : A) (before after : List A) (n : ℕ)
      → length (before ++ a ∷ after) + n ≤ 1
      → (before ≡ []) × (after ≡ []) × (n ≡ 0)
  alone a [] [] n h = (refl, refl, omega arith)
  alone a [] (b ∷ after) n h = absurd (omega arith)
  alone a (b ∷ before) after n h = absurd (omega (arith, length-append before (a ∷ after)))

  send-IsValid : (a : A) (w : Writer A) → IsValid w → IsValid (send_packet a w)
  unfolding send_packet
  send-IsValid a w v = record {
    one = ground (arith, v.one);
    rests = λ h. absurd (ground arith);
    fifo = λ h. rw (v.fifo h, append_assoc w.wire, append_assoc w.in_flight) refl;
    ordered = rw (← append_assoc w.in_flight w.write_queue (a ∷ [])) (
        rw (← append_assoc w.wire (w.in_flight ++ w.write_queue) (a ∷ []))
          (Subsequence-snoc _ w.accepted a v.ordered));
    ending = v.ending;
  }

  take-IsValid : (n : ℕ) (w : Writer A) → w.loops ≡ suc n → IsValid w → IsValid (take_front n w)
  unfolding take_front
  take-IsValid n w e v = elim (List-cases w.write_queue) [
    | inl empty ↦ rw empty (record {
      one = ground (arith, v.one);
      rests = λ h. refl;
      fifo = λ h. rw (v.fifo h, empty) refl;
      ordered = rw empty at v.ordered;
      ending = v.ending;
    })
    | inr (a, rest, some_queue) ↦ rw some_queue (record {
      one = ground (arith, v.one);
      rests = λ h. absurd (ground (arith, v.one, h));
      fifo = λ h. rw (v.fifo h, none_left w.in_flight (ground (arith, v.one)), some_queue) refl;
      ordered =
          let alone = none_left w.in_flight (ground (arith, v.one)) in
          rw alone (rw (alone, some_queue) at v.ordered);
      ending = v.ending;
    })
  ]

  written-IsValid :
      (a : A) (before after : List A) (w : Writer A)
      → w.in_flight ≡ before ++ a ∷ after
      → w.closed ≡ false
      → IsValid w
      → IsValid (written a (before ++ after) w)
  unfolding written
  written-IsValid a before after w e c v =
      let only = alone a before after w.loops (ground (arith, ap length e, v.one)) in
      rw (only.0, only.1)
        (record {
          one = ground (arith, v.one, ap length e, only.0, only.1);
          rests = v.rests;
          fifo = λ h. rw (v.fifo h, e, only.0, only.1, append_assoc w.wire) refl;
          ordered = rw (append_assoc w.wire) (rw (e, only.0, only.1) at v.ordered);
          ending = v.ending;
        })

  failed-IsValid :
      (a : A) (before after : List A) (w : Writer A)
      → w.in_flight ≡ before ++ a ∷ after
      → IsValid w
      → IsValid (write_failed (before ++ after) w)
  unfolding write_failed
  failed-IsValid a before after w e v =
      let only = alone a before after w.loops (ground (arith, ap length e, v.one)) in
      rw (only.0, only.1)
        (record {
          one = omega (arith, only.2);
          rests = λ h. refl;
          fifo = λ h. absurd (ground (arith, h));
          ordered =
              rw (append-nil w.wire)
                (Subsequence-front w.wire (w.in_flight ++ w.write_queue) w.accepted v.ordered);
          ending = inr (inr (omega arith));
        })

  pub Step-IsValid : {w u : Writer A} → Step w u → IsValid w → IsValid u
  Step-IsValid {w} (sends a) v = send-IsValid a w v
  Step-IsValid {w} (takes n e) v = take-IsValid n w e v
  Step-IsValid {w} (writes a before after e c) v = written-IsValid a before after w e c v
  Step-IsValid {w} (fails a before after e) v = failed-IsValid a before after w e v
  Step-IsValid {w} (closes n e) v =
      unfold disconnect_failed in
      record {
        one = v.one;
        rests = v.rests;
        fifo = v.fifo;
        ordered = v.ordered;
        ending = inr (inl refl);
      }
  Step-IsValid {w} disconnects v =
      unfold disconnect in
      record {
        one = v.one;
        rests = v.rests;
        fifo = v.fifo;
        ordered = v.ordered;
        ending = inr (inl refl);
      }

  idle-IsValid : IsValid idle
  idle-IsValid = record {
    one = refl;
    rests = λ h. refl;
    fifo = λ h. refl;
    ordered = refl;
    ending = inl refl;
  }

  pub Reach-IsValid : {w u : Writer A} → Reach w u → IsValid w → IsValid u
  Reach-IsValid here v = v
  Reach-IsValid (next r step) v = Step-IsValid step (Reach-IsValid r v)

  -- After any interleaving of calls of `Send`, turns of `DoWrite`, failed writes, the closing of the
  -- socket behind them and other disconnections that starts from an idle session: at most one
  -- coroutine writes; the packets on the wire are in the order in which `Send` was called with them;
  -- and they are the first ones, unless a write has failed.
  pub writer-order :
      {w : Writer A}
      → Reach idle w
      → (length w.in_flight + w.loops ≤ 1)
        × Subsequence w.wire w.accepted
        × (((lost : List A) × (w.accepted ≡ w.wire ++ lost)) ⊎ (w.torn ≡ true))
  writer-order {w} r =
      let v = Reach-IsValid r idle-IsValid in
      (
        ground (arith, v.one),
        Subsequence-front w.wire (w.in_flight ++ w.write_queue) w.accepted v.ordered,
        elim (Bool-cases w.torn) [
          | inl torn ↦ inr torn
          | inr whole ↦ inl (w.in_flight ++ w.write_queue, v.fifo whole)
        ],
      )

  -- After any such interleaving that leaves the socket open and no coroutine running, neither in its
  -- loop nor in its `catch`, every packet that `Send` was called with is on the wire.
  pub writer-drains :
      {w : Writer A}
      → Reach idle w
      → w.closed ≡ false
      → w.in_flight ≡ []
      → w.loops ≡ 0
      → w.closing ≡ 0
      → w.accepted ≡ w.wire
  writer-drains {w} r c f l quiet =
      let v = Reach-IsValid r idle-IsValid in
      let whole : w.torn ≡ false = ground (arith, v.ending, c, quiet) in
      rw (v.fifo whole, f, v.rests (ground (arith, v.one, f, l)), append-nil w.wire) refl
