-- ===== src/Security/PasswordHasher.antt =====
-- Server/Security/PasswordHasher.cpp. The bcrypt functions of ServerCore/ThirdParty/bcrypt and the
-- system's random numbers are parameters. A C string ends at its first zero byte.
pub mod Compare
pub mod Verify
use asio_chat_server.Common.{
  ℕ, Bool, true, false, Option, none, some, List, [], ◌∷◌, leb, ◌==◌, ◌&&◌, if◌then◌else◌, length,
  bit_or, bit_xor, ◌≡◌, not,
}

-- `_crypt_gensalt_blowfish_rn` on the cost and the salt, and `_crypt_blowfish_rn` on the password
-- and the setting; `none` is the null pointer of a failure.
pub record Bcrypt : Type 0 where
  pub gensalt : ℕ → List ℕ → Option (List ℕ)
  pub crypt : List ℕ → List ℕ → Option (List ℕ)

-- The bytes that `c_str()` shows to a C function, and that `std::string(out)` takes.
abbrev pub c_str : List ℕ → List ℕ
c_str [] = []
c_str (c ∷ cs) = let rest = c_str cs in if c == 0 then [] else c ∷ rest

-- The loop `diff |= a[i] ^ b[i]`.
unfoldable pub fold_diff : ℕ → List ℕ → List ℕ → ℕ
fold_diff diff (x ∷ xs) (y ∷ ys) = fold_diff (bit_or diff (bit_xor x y)) xs ys
fold_diff diff xs ys = diff

unfoldable pub constant_time_equals : List ℕ → List ℕ → Bool
unfolding fold_diff
constant_time_equals a b = if length a == length b then fold_diff 0 a b == 0 else false

-- `IsHash`: at least seven bytes that begin with `$2`.
unfoldable pub is_hash : List ℕ → Bool
is_hash (c ∷ d ∷ stored) = leb 5 (length stored) && (c == b'$' && d == b'2')
is_hash stored = false

abbrev pub default_cost : ℕ
default_cost = 12

module _ (bcrypt : Bcrypt) where
  -- `Hash`, on what the random generator gave: `none` if it failed. The empty text is a failure.
  unfoldable pub hash : List ℕ → ℕ → Option (List ℕ) → List ℕ
  hash plain cost none = []
  hash plain cost (some salt) = elim (bcrypt.gensalt cost salt) [
    | none ↦ []
    | some setting ↦ elim (bcrypt.crypt (c_str plain) (c_str setting)) [
      | none ↦ []
      | some out ↦ c_str out
    ]
  ]

  unfoldable pub verify : List ℕ → List ℕ → Bool
  verify plain encoded =
      if is_hash encoded
      then (elim (bcrypt.crypt (c_str plain) (c_str encoded)) [
        | none ↦ false
        | some out ↦ constant_time_equals (c_str out) encoded
      ])
      else false
