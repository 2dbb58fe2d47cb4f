-- ===== src/Security/InputValidator.antt =====
-- Server/Security/InputValidator.cpp. Texts are their bytes. `std::isspace` is that of the "C"
-- locale, and the pattern of an e-mail address is matched as `std::regex_match` documents it: the
-- whole text, by any way of dividing it among the parts of the pattern.
pub mod Pattern
use asio_chat_server.Common.{
  ℕ, Bool, true, false, not, List, [], ◌∷◌, ltb, leb, ◌==◌, ◌&&◌, ◌||◌, if◌then◌else◌, length,
}

pub is_space : ℕ → Bool
is_space c = c == 32 || (leb 9 c && leb c 13)

abbrev pub has_space : List ℕ → Bool
has_space [] = false
has_space (c ∷ cs) = is_space c || has_space cs

unfoldable pub is_valid_name : List ℕ → Bool
unfolding is_space
is_valid_name name =
    if ltb (length name) 2 || ltb 60 (length name) then false else not (has_space name)

pub is_letter : ℕ → Bool
is_letter c = (leb b'a' c && leb c b'z') || (leb b'A' c && leb c b'Z')

pub is_digit : ℕ → Bool
is_digit c = leb b'0' c && leb c b'9'

-- `[a-zA-Z0-9._%+-]`
pub is_local : ℕ → Bool
is_local c =
    is_letter c || is_digit c || c == b'.' || c == b'_' || c == b'%' || c == b'+' || c == b'-'

-- `[a-zA-Z0-9.-]`
pub is_domain : ℕ → Bool
is_domain c = is_letter c || is_digit c || c == b'.' || c == b'-'

abbrev pub all_of : (ℕ → Bool) → List ℕ → Bool
all_of p [] = true
all_of p (c ∷ cs) = p c && all_of p cs

-- `[a-zA-Z]{2,}$`
pub match_tld : List ℕ → Bool
match_tld cs = leb 2 (length cs) && all_of is_letter cs

-- `[a-zA-Z0-9.-]+\.[a-zA-Z]{2,}$`; the flag says that the repetition has matched once.
pub match_domain : Bool → List ℕ → Bool
match_domain seen [] = false
match_domain seen (c ∷ cs) =
    (seen && (c == b'.' && match_tld cs)) || (is_domain c && match_domain true cs)

pub match_local : Bool → List ℕ → Bool
match_local seen [] = false
match_local seen (c ∷ cs) =
    (seen && (c == b'@' && match_domain false cs)) || (is_local c && match_local true cs)

unfoldable pub is_valid_email : List ℕ → Bool
unfolding match_local match_domain match_tld is_local is_domain is_letter is_digit
is_valid_email email = if ltb 100 (length email) then false else match_local false email

unfoldable pub is_valid_password : List ℕ → Bool
is_valid_password password = leb 8 (length password) && leb (length password) 64
