-- ===== src/Client/ConsoleUi.antt =====
-- `DisplayWidth` of Client/ConsoleUI.cpp. Texts are their bytes.
use asio_chat_server.Common.{
  ℕ, zero, suc, ◌+◌, ◌/◌, Bool, false, List, [], ◌∷◌, ◌==◌, ◌&&◌, if◌then◌else◌, leb, ltb, length,
  drop,
}

-- Behind the letter that ends an escape sequence.
abbrev skip_escape : List ℕ → List ℕ
skip_escape [] = []
skip_escape (c ∷ s) = if leb 64 c && leb c 126 then s else skip_escape s

abbrev starts_escape : ℕ → List ℕ → Bool
starts_escape c [] = false
starts_escape c (d ∷ s) = (c == 27) && (d == 91)

-- Every turn of the loop takes a byte at least.
abbrev pub width_from : ℕ → List ℕ → ℕ
width_from zero s = 0
width_from (suc n) [] = 0
width_from (suc n) (c ∷ s) =
    if starts_escape c s
    then width_from n (skip_escape (drop 1 s))
    else if ltb c 128
    then 1 + width_from n s
    else if c / 32 == 6
    then 1 + width_from n (drop 1 s)
    else if c / 16 == 14
    then 2 + width_from n (drop 2 s)
    else if c / 8 == 30
    then 2 + width_from n (drop 3 s)
    else width_from n s

unfoldable pub display_width : List ℕ → ℕ
display_width s = width_from (length s) s
