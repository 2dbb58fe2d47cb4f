-- ===== src/Common/Find.antt =====
-- `std::string::find` of a text, and the numbers that `std::from_chars` reads.
use Prim.Native.Nat.{ℕ, ◌+◌, ◌-◌, ◌*◌, ◌≤◌, ◌<◌}
use mathlib.Core.Path.{◌≡◌, refl, ap, sym, ◌∙◌}
use mathlib.Core.Logic.{◌≢◌, ◌⊎◌, inl, inr}
use mathlib.Core.Bool.{Bool, true, false, ◌&&◌}
use mathlib.Core.List.{List, [], ◌∷◌, ◌++◌}
use mathlib.Core.Option.{Option, none, some}
use native.Mathlib.Omega.{arith}
use asio_chat_server.Common.Tests.{
  ltb, leb, ◌==◌, if◌then◌else◌, Option-cases, Bool-cases, get_or, some_injective, none≢some,
}
use asio_chat_server.Common.Lists.{length, length-append, All}

-- What follows a prefix of the text.
unfoldable pub strip_prefix : List ℕ → List ℕ → Option (List ℕ)
strip_prefix [] s = some s
strip_prefix (p ∷ ps) [] = none
strip_prefix (p ∷ ps) (c ∷ s) = if p == c then strip_prefix ps s else none

abbrev pub grow : ℕ → Option (List ℕ × List ℕ) → Option (List ℕ × List ℕ)
grow c none = none
grow c (some (l, r)) = some (c ∷ l, r)

-- The parts of the text before and behind the first place where `pat` stands.
unfoldable pub split_at : List ℕ → List ℕ → Option (List ℕ × List ℕ)
unfolding strip_prefix
split_at pat [] = elim (strip_prefix pat []) [ none ↦ none | some r ↦ some ([], r) ]
split_at pat (c ∷ s) = elim (strip_prefix pat (c ∷ s)) [
  | none ↦ grow c (split_at pat s)
  | some r ↦ some ([], r)
]

pub strip_prefix-append :
    (pat xs ys : List ℕ) (r : List ℕ)
    → strip_prefix pat xs ≡ some r
    → strip_prefix pat (xs ++ ys) ≡ some (r ++ ys)
unfolding strip_prefix
strip_prefix-append [] xs ys r h = ap (λ s. some (s ++ ys)) (some_injective xs r h)
strip_prefix-append (p ∷ ps) [] ys r h = absurd (none≢some r h)
strip_prefix-append (p ∷ ps) (c ∷ xs) ys r h = elim (Bool-cases (p == c)) [
  | inl e ↦ rw e (strip_prefix-append ps xs ys r (rw e at h))
  | inr e ↦ absurd (none≢some r (rw e at h))
]

strip_prefix-miss :
    (pat xs ys : List ℕ)
    → length pat ≤ length xs
    → strip_prefix pat xs ≡ none
    → strip_prefix pat (xs ++ ys) ≡ none
unfolding strip_prefix
strip_prefix-miss [] xs ys h e = absurd (none≢some xs (sym e))
strip_prefix-miss (p ∷ ps) [] ys h e = absurd (omega arith)
strip_prefix-miss (p ∷ ps) (c ∷ xs) ys h e = elim (Bool-cases (p == c)) [
  | inl same ↦ rw same (strip_prefix-miss ps xs ys (omega arith) (rw same at e))
  | inr other ↦ rw other refl
]

pub strip_prefix_sound : (pat xs r : List ℕ) → strip_prefix pat xs ≡ some r → xs ≡ pat ++ r
unfolding strip_prefix
strip_prefix_sound [] xs r h = some_injective xs r h
strip_prefix_sound (p ∷ ps) [] r h = absurd (none≢some r h)
strip_prefix_sound (p ∷ ps) (c ∷ xs) r h = elim (Bool-cases (p == c)) [
  | inl e ↦ let same : p ≡ c = grind arith in rw (same, strip_prefix_sound ps xs r (rw e at h)) refl
  | inr e ↦ absurd (none≢some r (rw e at h))
]

pub strip_prefix_self : (pat r : List ℕ) → strip_prefix pat (pat ++ r) ≡ some r
unfolding strip_prefix
strip_prefix_self [] r = refl
strip_prefix_self (p ∷ ps) r =
    let same : (p == p) ≡ true = grind arith in rw (same, strip_prefix_self ps r) refl

abbrev pub Split : Type 0
Split = List ℕ × List ℕ

pub some_pair : (a b : List ℕ) (s : Split) → some (a, b) ≡ some s → (a ≡ s.0) × (b ≡ s.1)
some_pair a b s e =
    let same = some_injective (a, b) s e in
    (ap (λ (x : Split). x.0) same, ap (λ (x : Split). x.1) same)

-- How the search in `c ∷ s` goes.
abbrev pub Found : List ℕ → ℕ → List ℕ → Split → Type 0
Found pat c s (l, r) =
    ((l ≡ []) × (strip_prefix pat (c ∷ s) ≡ some r))
    ⊎ ((strip_prefix pat (c ∷ s) ≡ none)
        × ((l' : List ℕ) × ((l ≡ c ∷ l') × (split_at pat s ≡ some (l', r)))))

split_at-cases :
    (pat : List ℕ) (c : ℕ) (s : List ℕ) (x : Split)
    → split_at pat (c ∷ s) ≡ some x
    → Found pat c s x
unfolding split_at
split_at-cases pat c s (l, r) h = elim (Option-cases (strip_prefix pat (c ∷ s))) [
  | inr (t, hit) ↦
      let (e, f) = some_pair [] t (l, r) (rw (hit, split_at) at h) in inl (sym e, rw (← f) hit)
  | inl miss ↦ elim (Option-cases (split_at pat s)) [
    | inl none_left ↦
        absurd (none≢some (l, r) (rw (none_left, split_at) at (rw (miss, split_at) at h)))
    | inr ((a, b), found) ↦
        let (e, f) =
          some_pair (c ∷ a) b (l, r) (rw (found, split_at) at (rw (miss, split_at) at h)) in
        inr (miss, (a, (sym e, rw (← f) found)))
  ]
]

-- A place that is found lies in the text.
pub split_at_sound : (pat xs l r : List ℕ) → split_at pat xs ≡ some (l, r) → xs ≡ l ++ (pat ++ r)
unfolding split_at
split_at_sound pat [] l r h = elim (Option-cases (strip_prefix pat [])) [
  | inl miss ↦ absurd (none≢some (l, r) (rw (miss, split_at) at h))
  | inr (t, hit) ↦
      let (e, f) = some_pair [] t (l, r) (rw (hit, split_at) at h) in
      rw (← e, ← f) (strip_prefix_sound pat [] t hit)
]
split_at_sound pat (c ∷ s) l r h = elim (split_at-cases pat c s (l, r) h) [
  | inl (e, hit) ↦ rw e (strip_prefix_sound pat (c ∷ s) r hit)
  | inr (miss, (l', (e, found))) ↦ rw e (ap (◌∷◌ c) (split_at_sound pat s l' r found))
]

split_at-hit :
    (pat : List ℕ) (c : ℕ) (s r : List ℕ)
    → strip_prefix pat (c ∷ s) ≡ some r
    → split_at pat (c ∷ s) ≡ some ([], r)
unfolding split_at
split_at-hit pat c s r hit = rw (hit, split_at) refl

pub split_at-miss :
    (pat : List ℕ) (c : ℕ) (s l r : List ℕ)
    → strip_prefix pat (c ∷ s) ≡ none
    → split_at pat s ≡ some (l, r)
    → split_at pat (c ∷ s) ≡ some (c ∷ l, r)
unfolding split_at
split_at-miss pat c s l r miss found = rw (miss, split_at) (rw found refl)

pub split_at-empty : (p : ℕ) (ps : List ℕ) → split_at (p ∷ ps) [] ≡ none
unfolding split_at strip_prefix
split_at-empty p ps = refl

-- What is found stays found when the text goes on.
pub split_at-append :
    (p : ℕ) (ps xs ys l r : List ℕ)
    → split_at (p ∷ ps) xs ≡ some (l, r)
    → split_at (p ∷ ps) (xs ++ ys) ≡ some (l, r ++ ys)
split_at-append p ps [] ys l r h = absurd (none≢some (l, r) (sym (split_at-empty p ps) ∙ h))
split_at-append p ps (c ∷ s) ys l r h = elim (split_at-cases (p ∷ ps) c s (l, r) h) [
  | inl (e, hit) ↦
      rw e (
        split_at-hit (p ∷ ps) c (s ++ ys) (r ++ ys) (strip_prefix-append (p ∷ ps) (c ∷ s) ys r hit))
  | inr (miss, (l', (e, found))) ↦
      let size = ap length (split_at_sound (p ∷ ps) s l' r found) in
      let room = rw (length-append l' (p ∷ ps ++ r), length-append ps r) at size in
      rw e (
        split_at-miss (p ∷ ps) c (s ++ ys) l' (r ++ ys)
          (strip_prefix-miss (p ∷ ps) (c ∷ s) ys (omega arith) miss)
          (split_at-append p ps s ys l' r found))
]

pub strip_prefix-other :
    (p : ℕ) (ps : List ℕ) (c : ℕ) (s : List ℕ) → p ≢ c → strip_prefix (p ∷ ps) (c ∷ s) ≡ none
unfolding strip_prefix
strip_prefix-other p ps c s other = let differ : (p == c) ≡ false = grind arith in rw differ refl

-- The first place of a pattern, behind a text without the pattern's first sign.
pub split_at-first :
    (p : ℕ) (ps l r : List ℕ)
    → All (λ c. p ≢ c) l
    → split_at (p ∷ ps) (l ++ (p ∷ ps ++ r)) ≡ some (l, r)
split_at-first p ps [] r free = split_at-hit (p ∷ ps) p (ps ++ r) r (strip_prefix_self (p ∷ ps) r)
split_at-first p ps (c ∷ l) r (other, free) =
    split_at-miss (p ∷ ps) c (l ++ (p ∷ ps ++ r)) l r
      (strip_prefix-other p ps c (l ++ (p ∷ ps ++ r)) other) (split_at-first p ps l r free)

-- A text without the pattern's first sign in front moves the first place.
pub split_at-skip :
    (p : ℕ) (ps l s a b : List ℕ)
    → All (λ c. p ≢ c) l
    → split_at (p ∷ ps) s ≡ some (a, b)
    → split_at (p ∷ ps) (l ++ s) ≡ some (l ++ a, b)
split_at-skip p ps [] s a b free found = found
split_at-skip p ps (c ∷ l) s a b (other, free) found =
    split_at-miss (p ∷ ps) c (l ++ s) (l ++ a) b (strip_prefix-other p ps c (l ++ s) other)
      (split_at-skip p ps l s a b free found)

-- A pattern is not in a text without its first sign.
pub split_at-absent : (p : ℕ) (ps l : List ℕ) → All (λ c. p ≢ c) l → split_at (p ∷ ps) l ≡ none
unfolding split_at strip_prefix
split_at-absent p ps [] free = refl
split_at-absent p ps (c ∷ l) (other, free) =
    rw (strip_prefix-other p ps c l other, split_at) (rw (split_at-absent p ps l free) refl)

abbrev digit_of : ℕ → ℕ → Option ℕ
digit_of base v = if ltb v base then some v else none

-- The value of a digit or a letter in the base.
unfoldable pub digit : ℕ → ℕ → Option ℕ
digit base c =
    if leb 48 c && leb c 57
    then digit_of base (c - 48)
    else if leb 97 c && leb c 122
    then digit_of base (c - 87)
    else if leb 65 c && leb c 90
    then digit_of base (c - 55)
    else none

unfoldable pub read_digits : ℕ → Option ℕ → List ℕ → Option ℕ
unfolding digit
read_digits base acc [] = acc
read_digits base acc (c ∷ s) = elim (digit base c) [
  | none ↦ acc
  | some d ↦ read_digits base (some (get_or 0 acc * base + d)) s
]

-- `std::from_chars` for an unsigned type with values below `bound`; `none` leaves the variable as
-- it was.
unfoldable pub from_chars : ℕ → ℕ → List ℕ → Option ℕ
unfolding read_digits
from_chars base bound s = elim (read_digits base none s) [
  | none ↦ none
  | some n ↦ if ltb n bound then some n else none
]

pub read_digits-digit :
    (base : ℕ) (acc : Option ℕ) (c d : ℕ) (s : List ℕ)
    → digit base c ≡ some d
    → read_digits base acc (c ∷ s) ≡ read_digits base (some (get_or 0 acc * base + d)) s
unfolding read_digits
read_digits-digit base acc c d s e = rw (e, read_digits) refl

pub from_chars-digits :
    (base bound n : ℕ) (s : List ℕ)
    → read_digits base none s ≡ some n
    → n < bound
    → from_chars base bound s ≡ some n
unfolding from_chars
from_chars-digits base bound n s e small =
    let fits : ltb n bound ≡ true = ground arith in rw (e, from_chars) (rw fits refl)

-- Whether a sign is not in a text.
abbrev pub lacks : ℕ → List ℕ → Bool
lacks p [] = true
lacks p (c ∷ s) = if p == c then false else lacks p s

pub lacks-All : (p : ℕ) (s : List ℕ) → lacks p s ≡ true → All (λ c. p ≢ c) s
lacks-All p [] h = tt
lacks-All p (c ∷ s) h = elim (Bool-cases (p == c)) [
  | inl e ↦ absurd (let f = rw e at h in cc)
  | inr e ↦ ((λ f. absurd (grind arith)), lacks-All p s (rw e at h))
]

-- The text before the first place of a sign does not have it.
pub split_at-lacks :
    (p : ℕ) (s l r : List ℕ) → split_at (p ∷ []) s ≡ some (l, r) → All (λ c. p ≢ c) l
split_at-lacks p [] l r e = absurd (none≢some (l, r) (sym (split_at-empty p []) ∙ e))
split_at-lacks p (c ∷ s) l r e = elim (split_at-cases (p ∷ []) c s (l, r) e) [
  | inl (nothing, hit) ↦ rw nothing tt
  | inr (miss, (l', (longer, found))) ↦
      rw longer ((λ same. missed same miss), split_at-lacks p s l' r found)
]
  where
    missed : p ≡ c → strip_prefix (p ∷ []) (c ∷ s) ≡ none → ⊥
    missed same miss = none≢some s (
        sym miss
        ∙ ap (λ d. strip_prefix (p ∷ []) (d ∷ s)) (sym same)
        ∙ strip_prefix_self (p ∷ []) s)
