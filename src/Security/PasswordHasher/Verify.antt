-- ===== src/Security/PasswordHasher/Verify.antt =====
-- What `Verify` of Server/Security/PasswordHasher.cpp accepts.
use asio_chat_server.Common.{
  ℕ, ◌≡◌, ◌≢◌, refl, ◌↔◌, inl, inr, true, Option, none, some, List, [], ◌∷◌, arith, Option-cases,
}
use asio_chat_server.Security.PasswordHasher.{Bcrypt, c_str, is_hash, hash, verify}
use asio_chat_server.Security.PasswordHasher.Compare.{IsBytes, constant_time_equals_iff}

-- What crypt_blowfish documents: a hash is a text of bytes of the `$2` form, and as a setting it
-- stands for the cost and the salt that it was made with.
pub record BcryptLaws (bcrypt : Bcrypt) : Type 0 where
  pub again :
      (plain setting out : List ℕ)
      → bcrypt.crypt plain setting ≡ some out
      → bcrypt.crypt plain (c_str out) ≡ some out
  pub hashes :
      (plain setting out : List ℕ)
      → bcrypt.crypt plain setting ≡ some out
      → is_hash (c_str out) ≡ true
  pub bytes :
      (plain setting out : List ℕ) → bcrypt.crypt plain setting ≡ some out → IsBytes (c_str out)

c_str-c_str : (cs : List ℕ) → c_str (c_str cs) ≡ c_str cs
c_str-c_str [] = refl
c_str-c_str (c ∷ cs) = ground (arith, c_str-c_str cs)

module _ (bcrypt : Bcrypt) (laws : BcryptLaws bcrypt) where
  hash-made :
      (plain : List ℕ) (cost : ℕ) (salt : Option (List ℕ))
      → hash bcrypt plain cost salt ≢ []
      → (setting out : List ℕ) × (bcrypt.crypt (c_str plain) setting ≡ some out)
        × (hash bcrypt plain cost salt ≡ c_str out)
  unfolding hash
  hash-made plain cost none h = absurd (h refl)
  hash-made plain cost (some salt) h = elim (Option-cases (bcrypt.gensalt cost salt)) [
    | inl e ↦ absurd (h (ground arith))
    | inr (setting, e) ↦ elim (Option-cases (bcrypt.crypt (c_str plain) (c_str setting))) [
      | inl f ↦ absurd (h (ground arith))
      | inr (out, f) ↦ (c_str setting, out, f, ground arith)
    ]
  ]

  -- A stored text of bytes is accepted exactly if it has the form of a hash and hashing the
  -- password under it gives it back.
  pub verify_iff :
      (plain encoded : List ℕ)
      → IsBytes encoded
      → (verify bcrypt plain encoded ≡ true) ↔ (
          (is_hash encoded ≡ true)
          × ((out : List ℕ) × (bcrypt.crypt (c_str plain) (c_str encoded) ≡ some out)
              × (c_str out ≡ encoded)))
  unfolding verify
  verify_iff plain encoded b = elim (Option-cases (bcrypt.crypt (c_str plain) (c_str encoded))) [
    | inl e ↦ (λ h. absurd (ground arith), λ h. ground (arith, h.1.1))
    | inr (out, e) ↦
        let same = constant_time_equals_iff (c_str out) encoded (laws.bytes _ _ _ e) b in
        (
          λ h. (ground arith, (out, e, ground (arith, same))),
          λ h. ground (arith, same, h.1.1, h.1.2),
        )
  ]

  verify-made :
      (plain setting out : List ℕ)
      → bcrypt.crypt (c_str plain) setting ≡ some out
      → verify bcrypt plain (c_str out) ≡ true
  unfolding verify
  verify-made plain setting out made =
      rw (laws.hashes _ _ _ made, c_str-c_str out, laws.again _ _ _ made)
        ((constant_time_equals_iff (c_str out) (c_str out) (laws.bytes _ _ _ made)
            (laws.bytes _ _ _ made)).1
          refl)

  -- A password is accepted against its own hash, whatever the cost and the salt, unless hashing
  -- failed, which is the empty text.
  pub verify-hash :
      (plain : List ℕ) (cost : ℕ) (salt : Option (List ℕ))
      → hash bcrypt plain cost salt ≢ []
      → verify bcrypt plain (hash bcrypt plain cost salt) ≡ true
  verify-hash plain cost salt h =
      let (setting, out, made, same) = hash-made plain cost salt h in
      rw same (verify-made plain setting out made)
