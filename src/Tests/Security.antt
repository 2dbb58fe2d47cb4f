-- ===== src/Tests/Security.antt =====
-- Runs of Server/Security.
use asio_chat_server.Common.{ℕ, ◌≤◌, ◌≡◌, ◌≢◌, ◌↔◌, true, some, List, [], ◌∷◌, length}
use asio_chat_server.Security.InputValidator.{is_valid_email}
use asio_chat_server.Security.InputValidator.Pattern.{IsEmail, is_valid_email_iff}
use asio_chat_server.Security.PasswordHasher.{hash, verify}
use asio_chat_server.Security.PasswordHasher.Verify.{verify-hash}
use asio_chat_server.Tests.Fixtures.{ann, toy_bcrypt, toy_laws}

is_valid_email_iff_example :
    (is_valid_email ann.email ≡ true) ↔ (IsEmail ann.email × (length ann.email ≤ 100))
is_valid_email_iff_example = is_valid_email_iff ann.email

abbrev salt : List ℕ
salt = 3 ∷ 4 ∷ []

hash-made : hash toy_bcrypt (1 ∷ 2 ∷ []) 12 (some salt) ≢ []
unfolding hash
hash-made e = cc

verify-hash_example :
    verify toy_bcrypt (1 ∷ 2 ∷ []) (hash toy_bcrypt (1 ∷ 2 ∷ []) 12 (some salt)) ≡ true
verify-hash_example = verify-hash toy_bcrypt toy_laws (1 ∷ 2 ∷ []) 12 (some salt) hash-made
