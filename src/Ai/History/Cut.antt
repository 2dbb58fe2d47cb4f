-- ===== src/Ai/History/Cut.antt =====
-- `Truncate` of Server/AI/AiChatService.cpp cuts a UTF-8 text between two characters.
use asio_chat_server.Common.{
  ℕ, zero, suc, ◌+◌, ◌-◌, ◌≤◌, ◌<◌, ◌≡◌, refl, sym, ap, ◌∙◌, true, false, List, [], ◌∷◌, ◌++◌,
  arith, leb, if◌then◌else◌, length, take, length-append, inl, inr, Bool-cases,
}
use asio_chat_server.Ai.History.{is_continuation, byte_at, cut_at, truncate}

-- The bytes of one character: one that starts it, and continuation bytes.
abbrev pub AllContinue : List ℕ → Type 0
AllContinue [] = Unit
AllContinue (c ∷ cs) = (is_continuation c ≡ true) × AllContinue cs

abbrev pub IsChar : List ℕ → Type 0
IsChar [] = ⊥
IsChar (c ∷ cs) = (is_continuation c ≡ false) × AllContinue cs

abbrev pub AreChars : List (List ℕ) → Type 0
AreChars [] = Unit
AreChars (c ∷ cs) = IsChar c × AreChars cs

abbrev pub text_of : List (List ℕ) → List ℕ
text_of [] = []
text_of (c ∷ cs) = c ++ text_of cs

-- The leading characters that together fit, in order.
abbrev pub fitting : List (List ℕ) → ℕ → List (List ℕ)
fitting [] n = []
fitting (c ∷ cs) n =
    let rest = fitting cs (n - length c) in if leb (length c) n then c ∷ rest else []

-- Inside a character the cut moves to its start.
cut_at-inside :
    (c : ℕ) (cs xs : List ℕ) (n : ℕ) → AllContinue cs → n ≤ length cs → cut_at (c ∷ cs ++ xs) n ≡ 0
unfolding cut_at
cut_at-inside c cs xs zero v h = refl
cut_at-inside c cs xs (suc n) v h =
    rw (byte_at-continues cs n v (omega arith)) (cut_at-inside c cs xs n v (omega arith))
  where
    byte_at-continues :
        (ds : List ℕ) (k : ℕ)
        → AllContinue ds
        → k < length ds
        → is_continuation (byte_at (ds ++ xs) k) ≡ true
    byte_at-continues [] k w lt = absurd (omega arith)
    byte_at-continues (d ∷ ds) zero w lt = w.0
    byte_at-continues (d ∷ ds) (suc k) w lt = byte_at-continues ds k w.1 (omega arith)

byte_at-append : (p xs : List ℕ) (n : ℕ) → byte_at (p ++ xs) (length p + n) ≡ byte_at xs n
byte_at-append [] xs n = ap (byte_at xs) (omega arith)
byte_at-append (c ∷ p) xs n = rw (suc_plus (length p) n) (byte_at-append p xs n)
  where
    suc_plus : (a b : ℕ) → suc a + b ≡ suc (a + b)
    suc_plus a b = omega arith

cut_at-suc :
    (s : List ℕ) (n : ℕ)
    → cut_at s (suc n) ≡ (if is_continuation (byte_at s (suc n)) then cut_at s n else suc n)
unfolding cut_at
cut_at-suc s n = refl

-- Behind a character the cut is that of the text behind it.
cut_at-behind :
    (p xs : List ℕ) (n : ℕ)
    → 0 < length p
    → is_continuation (byte_at xs 0) ≡ false
    → cut_at (p ++ xs) (length p + n) ≡ length p + cut_at xs n
cut_at-behind [] xs n h b = absurd (omega arith)
cut_at-behind (c ∷ cs) xs zero h b = rw plus_zero (unfold cut_at in rw (at_start, plus_zero) refl)
  where
    plus_zero : suc (length cs) + 0 ≡ suc (length cs)
    plus_zero = omega arith

    at_start : is_continuation (byte_at (c ∷ cs ++ xs) (suc (length cs))) ≡ false
    at_start = rw (sym plus_zero) (rw (byte_at-append (c ∷ cs) xs 0) b)
cut_at-behind (c ∷ cs) xs (suc n) h b =
    let s = c ∷ cs ++ xs in
    let far : suc (length cs) + suc n ≡ suc (suc (length cs) + n) = omega arith in
    let same : byte_at s (suc (suc (length cs) + n)) ≡ byte_at xs (suc n) =
      ap (byte_at s) (sym far) ∙ byte_at-append (c ∷ cs) xs (suc n) in
    rw
      (
        far,
        cut_at-suc s (suc (length cs) + n),
        same,
        cut_at-suc xs n,
        cut_at-behind (c ∷ cs) xs n h b,
      )
      (ground arith)

take-behind : (p xs : List ℕ) (n : ℕ) → take (length p + n) (p ++ xs) ≡ p ++ take n xs
take-behind [] xs n = ap (λ k. take k xs) (omega arith)
take-behind (c ∷ p) xs n = rw (suc_plus (length p) n) (ap (◌∷◌ c) (take-behind p xs n))
  where
    suc_plus : (a b : ℕ) → suc a + b ≡ suc (a + b)
    suc_plus a b = omega arith

fitting-all : (cs : List (List ℕ)) (n : ℕ) → length (text_of cs) ≤ n → fitting cs n ≡ cs
fitting-all [] n h = refl
fitting-all (c ∷ cs) n h =
    ground (arith, length-append c (text_of cs), fitting-all cs (n - length c))

starts :
    (cs : List (List ℕ))
    → AreChars cs
    → 0 < length (text_of cs)
    → is_continuation (byte_at (text_of cs) 0) ≡ false
starts [] v h = absurd (omega arith)
starts ([] ∷ cs) v h = absurd v.0
starts ((c ∷ ds) ∷ cs) v h = v.0.0

cut_text :
    (cs : List (List ℕ)) (n : ℕ)
    → AreChars cs
    → n < length (text_of cs)
    → take (cut_at (text_of cs) n) (text_of cs) ≡ text_of (fitting cs n)
cut_text [] n v h = absurd (omega arith)
cut_text ([] ∷ cs) n v h = absurd v.0
cut_text ((c ∷ ds) ∷ cs) n v h = elim (Bool-cases (leb (suc (length ds)) n)) [
  | inl e ↦
      let p = c ∷ ds in
      let k = n - length p in
      let split : n ≡ length p + k = ground arith in
      let more : k < length (text_of cs) = omega (arith, split, length-append p (text_of cs)) in
      rw e (
        ap (λ m. take (cut_at (p ++ text_of cs) m) (p ++ text_of cs)) split
        ∙ ap (λ m. take m (p ++ text_of cs))
            (cut_at-behind p (text_of cs) k (omega arith) (starts cs v.1 (omega (arith, more))))
        ∙ take-behind p (text_of cs) (cut_at (text_of cs) k)
        ∙ ap (λ x. p ++ x) (cut_text cs k v.1 more))
  | inr e ↦ rw (e, cut_at-inside c ds (text_of cs) n v.0.1 (ground arith)) refl
]

-- A text of whole characters is truncated to the leading characters that together fit.
pub truncate-fitting :
    (cs : List (List ℕ)) (n : ℕ) → AreChars cs → truncate (text_of cs) n ≡ text_of (fitting cs n)
truncate-fitting cs n v = elim (Bool-cases (leb (length (text_of cs)) n)) [
  | inl e ↦ rw (fitting-all cs n (ground arith)) (unfold truncate in rw e refl)
  | inr e ↦ unfold truncate in rw e (cut_text cs n v (ground arith))
]
