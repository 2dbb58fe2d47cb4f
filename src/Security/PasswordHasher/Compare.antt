-- ===== src/Security/PasswordHasher/Compare.antt =====
-- The constant-time comparison of Server/Security/PasswordHasher.cpp decides equality.
use asio_chat_server.Common.{
  ℕ, zero, suc, ◌<◌, ◌≡◌, refl, ap, ◌↔◌, Bool, true, false, List, [], ◌∷◌, arith, ◌==◌, ◌&&◌,
  length, bit_or, bit_xor, ltb,
}
use asio_chat_server.Security.PasswordHasher.{fold_diff, constant_time_equals}

all_below : ℕ → (ℕ → Bool) → Bool
all_below zero p = true
all_below (suc n) p = p n && all_below n p

all_below_lem : (n : ℕ) (p : ℕ → Bool) (x : ℕ) → all_below n p ≡ true → x < n → p x ≡ true
unfolding all_below
all_below_lem zero p x h lt = absurd (omega arith)
all_below_lem (suc n) p x h lt = ground (arith, all_below_lem n p x)

iff : Bool → Bool → Bool
iff true b = b
iff false true = false
iff false false = true

-- What the loop needs of the two operations at a pair of bytes.
abbrev byte_facts : ℕ → ℕ → Bool
byte_facts x y =
    ltb (bit_or x y) 256
    && (ltb (bit_xor x y) 256
        && (iff (bit_or x y == 0) (x == 0 && y == 0) && iff (bit_xor x y == 0) (x == y)))

byte_table : all_below 256 (λ x. all_below 256 (byte_facts x)) ≡ true
unfolding all_below iff
byte_table = refl

byte_facts_lem : (x y : ℕ) → x < 256 → y < 256 → byte_facts x y ≡ true
byte_facts_lem x y hx hy =
    all_below_lem 256 (byte_facts x) y
      (all_below_lem 256 (λ a. all_below 256 (byte_facts a)) x byte_table hx) hy

bit_xor-byte : (x y : ℕ) → x < 256 → y < 256 → (bit_xor x y < 256) × ((bit_xor x y ≡ 0) ↔ (x ≡ y))
unfolding iff
bit_xor-byte x y hx hy = ground (arith, byte_facts_lem x y hx hy)

bit_or-byte :
    (x y : ℕ) → x < 256 → y < 256 → (bit_or x y < 256) × ((bit_or x y ≡ 0) ↔ ((x ≡ 0) × (y ≡ 0)))
unfolding iff
bit_or-byte x y hx hy = ground (arith, byte_facts_lem x y hx hy)

abbrev pub IsBytes : List ℕ → Type 0
IsBytes [] = Unit
IsBytes (c ∷ cs) = (c < 256) × IsBytes cs

fold_diff-zero :
    (d : ℕ) (a b : List ℕ)
    → d < 256
    → IsBytes a
    → IsBytes b
    → length a ≡ length b
    → (fold_diff d a b ≡ 0) ↔ ((d ≡ 0) × (a ≡ b))
unfolding fold_diff
fold_diff-zero d [] [] hd ha hb e = ground arith
fold_diff-zero d [] (y ∷ b) hd ha hb e = absurd (omega arith)
fold_diff-zero d (x ∷ a) [] hd ha hb e = absurd (omega arith)
fold_diff-zero d (x ∷ a) (y ∷ b) hd (hx, ha) (hy, hb) e =
    let xor = bit_xor-byte x y hx hy in
    let or = bit_or-byte d (bit_xor x y) hd xor.0 in
    let rest = fold_diff-zero (bit_or d (bit_xor x y)) a b or.0 ha hb (omega arith) in
    ground (arith, xor, or, rest)

-- On texts of bytes the loop over all positions answers as equality does.
pub constant_time_equals_iff :
    (a b : List ℕ) → IsBytes a → IsBytes b → (constant_time_equals a b ≡ true) ↔ (a ≡ b)
unfolding constant_time_equals
constant_time_equals_iff a b ha hb =
    ground (arith, fold_diff-zero 0 a b (omega arith) ha hb, λ (e : a ≡ b). ap length e)
