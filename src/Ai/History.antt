-- ===== src/Ai/History.antt =====
-- `Truncate` and `BuildHistory` of Server/AI/AiChatService.cpp. Texts are their bytes.
pub mod Cut
pub mod Roles
use asio_chat_server.Common.{
  ℕ, zero, suc, ◌/◌, ◌%◌, Bool, true, false, List, [], ◌∷◌, ◌++◌, ◌==◌, if◌then◌else◌, leb, length,
  take, bytes_eq, codes,
}

-- `(c & 0xC0) == 0x80`, of a byte.
abbrev pub is_continuation : ℕ → Bool
is_continuation c = c / 64 % 4 == 2

abbrev pub byte_at : List ℕ → ℕ → ℕ
byte_at [] n = 0
byte_at (c ∷ cs) zero = c
byte_at (c ∷ cs) (suc n) = byte_at cs n

-- The loop that moves the cut back to the start of a character.
unfoldable pub cut_at : List ℕ → ℕ → ℕ
cut_at s zero = 0
cut_at s (suc n) =
    let back = cut_at s n in if is_continuation (byte_at s (suc n)) then back else suc n

unfoldable pub truncate : List ℕ → ℕ → List ℕ
unfolding cut_at
truncate s max_bytes = if leb (length s) max_bytes then s else take (cut_at s max_bytes) s

pub record Message : Type 0 where
  pub role : List ℕ
  pub content : List ℕ

-- One turn of the loop over the rows, on the messages so far.
unfoldable pub push_row : List Message → Message → List Message
push_row [] row = if bytes_eq row.role (codes "user") then row ∷ [] else []
push_row (m ∷ []) row =
    if bytes_eq m.role row.role
    then record m { content = m.content ++ (codes "\n\n" ++ row.content) } ∷ []
    else m ∷ row ∷ []
push_row (m ∷ n ∷ ms) row = m ∷ push_row (n ∷ ms) row

unfoldable pub push_rows : List Message → List Message → List Message
unfolding push_row
push_rows out [] = out
push_rows out (row ∷ rows) = push_rows (push_row out row) rows

unfoldable pub build_history : List Message → List Message
unfolding push_rows
build_history rows = push_rows [] rows
