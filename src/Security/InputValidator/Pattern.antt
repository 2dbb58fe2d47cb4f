-- ===== src/Security/InputValidator/Pattern.antt =====
-- The e-mail check of Server/Security/InputValidator.cpp against its pattern.
use asio_chat_server.Common.{
  ℕ, ◌≤◌, ◌≡◌, refl, ap, ◌∙◌, ◌↔◌, ◌⊎◌, inl, inr, Bool, true, false, List, [], ◌∷◌, ◌++◌, arith,
  ◌==◌, ◌&&◌, length, Bool-cases, le→ltb,
}
use asio_chat_server.Security.InputValidator.{
  is_letter, is_domain, is_local, all_of, match_tld, match_domain, match_local, is_valid_email,
}

-- An address: at most 100 bytes that are a local part, `@`, a domain, a dot and a top-level name.
pub record IsEmail (email : List ℕ) : Type 0 where
  pub user : List ℕ
  pub domain : List ℕ
  pub tld : List ℕ
  pub divided : email ≡ user ++ (b'@' ∷ domain ++ (b'.' ∷ tld))
  pub user_chars : all_of is_local user ≡ true
  pub user_some : 1 ≤ length user
  pub domain_chars : all_of is_domain domain ≡ true
  pub domain_some : 1 ≤ length domain
  pub tld_chars : all_of is_letter tld ≡ true
  pub tld_two : 2 ≤ length tld

-- A domain part, after one byte of it (`seen`) or none.
record IsDomain (seen : Bool) (cs : List ℕ) : Type 0 where
  domain : List ℕ
  tld : List ℕ
  divided : cs ≡ domain ++ (b'.' ∷ tld)
  chars : all_of is_domain domain ≡ true
  some_chars : (seen ≡ true) ⊎ (1 ≤ length domain)
  tail : match_tld tld ≡ true

match_domain-IsDomain : (seen : Bool) (cs : List ℕ) → match_domain seen cs ≡ true → IsDomain seen cs
unfolding match_domain
match_domain-IsDomain seen [] h = cc
match_domain-IsDomain seen (c ∷ cs) h = elim (Bool-cases (seen && (c == b'.' && match_tld cs))) [
  | inl e ↦ record {
    domain = [];
    tld = cs;
    divided = ground arith;
    chars = refl;
    some_chars = inl (ground arith);
    tail = ground arith;
  }
  | inr e ↦
      let more = match_domain-IsDomain true cs (ground arith) in
      record {
        domain = c ∷ more.domain;
        tld = more.tld;
        divided = ap (◌∷◌ c) more.divided;
        chars = ground (arith, more.chars);
        some_chars = inr (omega arith);
        tail = more.tail;
      }
]

IsDomain-match_domain :
    (seen : Bool) (d t : List ℕ)
    → all_of is_domain d ≡ true
    → (seen ≡ true) ⊎ (1 ≤ length d)
    → match_tld t ≡ true
    → match_domain seen (d ++ (b'.' ∷ t)) ≡ true
unfolding match_domain
IsDomain-match_domain seen [] t a s m = ground arith
IsDomain-match_domain seen (c ∷ d) t a s m = ground (arith, IsDomain-match_domain true d t)

match_local-IsEmail :
    (seen : Bool) (cs : List ℕ)
    → match_local seen cs ≡ true
    → (u : List ℕ) × (rest : List ℕ) × (cs ≡ u ++ (b'@' ∷ rest))
      × (all_of is_local u ≡ true)
      × ((seen ≡ true) ⊎ (1 ≤ length u))
      × (match_domain false rest ≡ true)
unfolding match_local
match_local-IsEmail seen [] h = cc
match_local-IsEmail seen (c ∷ cs) h =
    elim (Bool-cases (seen && (c == b'@' && match_domain false cs))) [
      | inl e ↦ ([], cs, ground arith, refl, inl (ground arith), ground arith)
      | inr e ↦
          let (u, rest, d, a, s, m) = match_local-IsEmail true cs (ground arith) in
          (c ∷ u, rest, ap (◌∷◌ c) d, ground (arith, a), inr (omega arith), m)
    ]

user-match_local :
    (seen : Bool) (u rest : List ℕ)
    → all_of is_local u ≡ true
    → (seen ≡ true) ⊎ (1 ≤ length u)
    → match_domain false rest ≡ true
    → match_local seen (u ++ (b'@' ∷ rest)) ≡ true
unfolding match_local
user-match_local seen [] rest a s m = ground arith
user-match_local seen (c ∷ u) rest a s m = ground (arith, user-match_local true u rest)

IsEmail-is_valid :
    (email : List ℕ) → IsEmail email → length email ≤ 100 → is_valid_email email ≡ true
unfolding is_valid_email match_tld
IsEmail-is_valid email v h =
    rw (le→ltb 100 (length email) h, v.divided)
      (user-match_local false v.user _ v.user_chars (inr v.user_some) (
        IsDomain-match_domain false v.domain v.tld v.domain_chars (inr v.domain_some)
          (ground (arith, v.tld_chars, v.tld_two))))

is_valid-IsEmail :
    (email : List ℕ) → is_valid_email email ≡ true → IsEmail email × (length email ≤ 100)
unfolding is_valid_email match_tld
is_valid-IsEmail email h =
    let (u, rest, e, user_chars, user_some, m) = match_local-IsEmail false email (ground arith) in
    let d = match_domain-IsDomain false rest m in
    (
      record {
        user = u;
        domain = d.domain;
        tld = d.tld;
        divided = e ∙ ap (λ r. u ++ (b'@' ∷ r)) d.divided;
        user_chars = user_chars;
        user_some = ground arith;
        domain_chars = d.chars;
        domain_some = ground (arith, d.some_chars);
        tld_chars = ground (arith, d.tail);
        tld_two = ground (arith, d.tail);
      },
      ground arith,
    )

-- The check accepts exactly the texts of at most 100 bytes that the pattern describes.
pub is_valid_email_iff :
    (email : List ℕ) → (is_valid_email email ≡ true) ↔ (IsEmail email × (length email ≤ 100))
is_valid_email_iff email = (is_valid-IsEmail email, λ h. IsEmail-is_valid email h.0 h.1)
