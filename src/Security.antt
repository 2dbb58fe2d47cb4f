-- ===== src/Security.antt =====
-- Server/Security: the checks of what clients send, and the password hashes.
pub mod InputValidator
pub mod PasswordHasher
