-- ===== src/Client/AiLines/Cut.antt =====
-- `CutFront` of Client/ServerPacketHandler.cpp takes some of the text and loses at most a space.
use asio_chat_server.Common.{
  ℕ, zero, suc, ◌-◌, ◌≤◌, ◌<◌, ◌≡◌, ◌≢◌, ◌⊎◌, refl, sym, ap, subst, ◌∙◌, true, false, none, some,
  List, [], ◌∷◌, ◌++◌, arith, All, min, ◌==◌, ◌||◌, ltb, length, take, drop, length-append,
  length-drop, take-append-drop, inl, inr, Bool-cases, Option-cases, none≢some, some_injective,
  if_of_false, if_both,
}
use asio_chat_server.Common.Find.{Split, split_at_sound}
use asio_chat_server.Ai.History.{is_continuation, byte_at, cut_at}
use asio_chat_server.Client.ConsoleUi.{display_width}
use asio_chat_server.Client.AiLines.{
  last_space, front_cut, skip_space, cut_front, next_line, next_wide,
}

-- At most three continuation bytes in a row, with `k` of them in front: what UTF-8 has.
abbrev pub ShortRuns : ℕ → List ℕ → Type 0
ShortRuns k [] = Unit
ShortRuns k (c ∷ s) =
    ((is_continuation c ≡ false) × ShortRuns 0 s)
    ⊎ ((is_continuation c ≡ true) × ((k < 3) × ShortRuns (suc k) s))

ShortRuns-weaken : (j k : ℕ) (s : List ℕ) → j ≤ k → ShortRuns k s → ShortRuns j s
ShortRuns-weaken j k [] h v = tt
ShortRuns-weaken j k (c ∷ s) h (inl v) = inl v
ShortRuns-weaken j k (c ∷ s) h (inr (e, (small, v))) =
    inr (e, (omega arith, ShortRuns-weaken (suc j) (suc k) s (omega arith) v))

pub ShortRuns-suffix : (k : ℕ) (l s : List ℕ) → ShortRuns k (l ++ s) → ShortRuns 0 s
ShortRuns-suffix k [] s v = ShortRuns-weaken 0 k s (omega arith) v
ShortRuns-suffix k (c ∷ l) s (inl (e, v)) = ShortRuns-suffix 0 l s v
ShortRuns-suffix k (c ∷ l) s (inr (e, (small, v))) = ShortRuns-suffix (suc k) l s v

pub ShortRuns-prefix : (k : ℕ) (l s : List ℕ) → ShortRuns k (l ++ s) → ShortRuns k l
ShortRuns-prefix k [] s v = tt
ShortRuns-prefix k (c ∷ l) s (inl (e, v)) = inl (e, ShortRuns-prefix 0 l s v)
ShortRuns-prefix k (c ∷ l) s (inr (e, (small, v))) =
    inr (e, (small, ShortRuns-prefix (suc k) l s v))

no_run :
    (k : ℕ) (s : List ℕ)
    → ShortRuns k s
    → k ≤ 3
    → ((i : ℕ) → i < 4 - k → is_continuation (byte_at s i) ≡ true)
    → 4 - k ≤ length s
    → ⊥
no_run k [] v h f long = omega arith
no_run k (c ∷ s) (inl (e, v)) h f long = let g = f 0 (omega arith) in absurd (cc)
no_run k (c ∷ s) (inr (e, (small, v))) h f long =
    no_run (suc k) s v (omega arith) (λ i lt. f (suc i) (omega arith)) (omega arith)

cut_at-zero :
    (s : List ℕ) (n i : ℕ) → cut_at s n ≡ 0 → i < n → is_continuation (byte_at s (suc i)) ≡ true
unfolding cut_at
cut_at-zero s zero i e h = absurd (omega arith)
cut_at-zero s (suc n) i e h = elim (Bool-cases (is_continuation (byte_at s (suc n)))) [
  | inl more ↦ elim (Bool-cases (i == n)) [
    | inl here ↦ let same : n ≡ i = grind arith in rw same at more
    | inr before ↦ cut_at-zero s n i (rw (more, cut_at) at e) (grind arith)
  ]
  | inr stop ↦ absurd (let f = rw (stop, cut_at) at e in omega arith)
]

byte_at-behind : (s : List ℕ) → byte_at s (length s) ≡ 0
byte_at-behind [] = refl
byte_at-behind (c ∷ s) = byte_at-behind s

cut_at-end : (c : ℕ) (s : List ℕ) → cut_at (c ∷ s) (suc (length s)) ≡ suc (length s)
unfolding cut_at
cut_at-end c s =
    let e : is_continuation (byte_at s (length s)) ≡ false = rw (byte_at-behind s) refl in rw e refl

positive : (n : ℕ) → n ≢ 0 → 0 < n
positive n h = ground (arith, h)

-- The cut by bytes takes a byte at least.
cut_at-positive :
    (c : ℕ) (s : List ℕ) → ShortRuns 0 (c ∷ s) → 0 < cut_at (c ∷ s) (min (length (c ∷ s)) 120)
cut_at-positive c s v = elim (Bool-cases (ltb 120 (length (c ∷ s)))) [
  | inl long ↦
      let n : min (length (c ∷ s)) 120 ≡ 120 = ground arith in
      rw n (
        positive (cut_at (c ∷ s) 120) (λ e.
          no_run 0 s (ShortRuns-suffix 0 (c ∷ []) s v) (omega arith)
            (λ i h. cut_at-zero (c ∷ s) 120 i e (omega arith)) (ground arith)))
  | inr short ↦
      let n : min (length (c ∷ s)) 120 ≡ suc (length s) = ground arith in
      rw n (rw (cut_at-end c s) (omega arith))
]

front_cut-positive : (m : ℕ) (c : ℕ) (s : List ℕ) → ShortRuns 0 (c ∷ s) → 0 < front_cut m (c ∷ s)
unfolding front_cut
front_cut-positive m c s v =
    let bytes = cut_at-positive c s v in
    elim (Option-cases (last_space (c ∷ s))) [
      | inl no_space ↦ rw (no_space, front_cut) bytes
      | inr (n, at) ↦ elim (Bool-cases (n == 0)) [
        | inl zero' ↦ rw (at, front_cut) (rw zero' bytes)
        | inr some' ↦
            rw (at, front_cut)
              (if_both (λ k. 0 < k) ((n == 0) || ltb m (display_width (take n (c ∷ s))))
                (cut_at (c ∷ s) (min (length (c ∷ s)) 120)) n bytes (ground arith))
      ]
    ]

-- What is lost between two lines: nothing, a space or a line end.
abbrev pub IsSep : List ℕ → Type 0
IsSep sep = All (λ c. (c ≡ 32) ⊎ (c ≡ 10)) sep × (length sep ≤ 1)

skip_space-IsSep : (s : List ℕ) → (sep : List ℕ) × (IsSep sep × (s ≡ sep ++ skip_space s))
skip_space-IsSep [] = ([], ((tt, omega arith), refl))
skip_space-IsSep (c ∷ s) = elim (Bool-cases (c == 32)) [
  | inl e ↦
      let same : c ≡ 32 = grind arith in (32 ∷ [], ((((inl refl), tt), omega arith), rw same refl))
  | inr e ↦ ([], ((tt, omega arith), sym (if_of_false s (c ∷ s) e)))
]

-- How a text is cut: a line, what is lost, and the rest, which is shorter.
pub record Cuts (buf : List ℕ) (x : Split) : Type 0 where
  pub sep : List ℕ
  pub lost : IsSep sep
  pub whole : buf ≡ x.0 ++ (sep ++ x.1)
  pub shorter : length x.1 < length buf

cut_front-Cuts : (m c : ℕ) (s : List ℕ) → ShortRuns 0 (c ∷ s) → Cuts (c ∷ s) (cut_front m (c ∷ s))
unfolding cut_front
cut_front-Cuts m c s v =
    let n = front_cut m (c ∷ s) in
    let more = front_cut-positive m c s v in
    let (sep, (lost, e)) = skip_space-IsSep (drop n (c ∷ s)) in
    let size = ap length e ∙ length-append sep (skip_space (drop n (c ∷ s))) in
    let dropped = length-drop n (c ∷ s) in
    record {
      sep = sep;
      lost = lost;
      whole = sym (take-append-drop n (c ∷ s)) ∙ ap (λ w. take n (c ∷ s) ++ w) e;
      shorter = omega arith;
    }

next_wide-empty : (m : ℕ) → next_wide m [] ≡ none
unfolding next_wide display_width
next_wide-empty m = let no' : ltb m 0 ≡ false = ground arith in rw no' refl

-- Every turn of the loop that cuts wide lines makes the text shorter.
pub next_wide-Cuts :
    (m : ℕ) (buf : List ℕ) (x : Split) → ShortRuns 0 buf → next_wide m buf ≡ some x → Cuts buf x
unfolding next_wide
next_wide-Cuts m [] x v e = absurd (none≢some x (sym (next_wide-empty m) ∙ e))
next_wide-Cuts m (c ∷ s) x v e = elim (Bool-cases (ltb m (display_width (c ∷ s)))) [
  | inl wide ↦
      subst (Cuts (c ∷ s)) (some_injective (cut_front m (c ∷ s)) x (rw (wide, next_wide) at e))
        (cut_front-Cuts m c s v)
  | inr narrow ↦ absurd (none≢some x (rw (narrow, next_wide) at e))
]

pub next_line-Cuts : (buf : List ℕ) (x : Split) → next_line buf ≡ some x → Cuts buf x
next_line-Cuts buf (l, r) e =
    let whole = split_at_sound (10 ∷ []) buf l r e in
    let size = ap length whole ∙ length-append l (10 ∷ r) in
    record {
      sep = 10 ∷ [];
      lost = ((inr refl, tt), omega arith);
      whole = whole;
      shorter = omega arith;
    }
