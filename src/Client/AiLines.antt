-- ===== src/Client/AiLines.antt =====
-- `Handle_S_AI_CHAT` of Client/ServerPacketHandler.cpp and the lines it draws with `DrawAiLine` and
-- `PrintChatMessage` of Client/ClientApp.cpp. Texts are their bytes. The rows of the scroll region
-- are kept with who drew them, the newest first, also those that have left the screen.
pub mod Cut
pub mod Loops
pub mod Piece
pub mod End
pub mod Answer
use asio_chat_server.Common.{
  ℕ, zero, suc, ◌+◌, ◌-◌, min, max, Bool, true, false, not, Option, none, some, List, [], ◌∷◌, ◌++◌,
  ◌==◌, ◌&&◌, ◌||◌, if◌then◌else◌, ltb, length, take, drop, replicate, codes, is_empty,
}
use asio_chat_server.Common.Find.{split_at}
use asio_chat_server.Ai.History.{cut_at, byte_at}
use asio_chat_server.Client.ConsoleUi.{display_width}

pub data Row : Type 0 where
  ai : List ℕ → Row
  other : List ℕ → Row

-- `GChatActive` and `GBottomLineIsAi` with the rows, and `GAiPending`, `GAiShown` and `GAiFirstLine`.
pub record Chat : Type 0 where
  pub active : Bool
  pub bottom_is_ai : Bool
  pub rows : List Row
  pub pending : List ℕ
  pub shown : Bool
  pub first_line : Bool

-- The packet `S_AI_CHAT`.
pub record AiChat : Type 0 where
  pub text : List ℕ
  pub done : Bool
  pub success : Bool
  pub error_msg : List ℕ

abbrev pub aligned : ℕ → List ℕ → Bool → List ℕ
aligned width line true = replicate (width - display_width line - 1) 32 ++ line
aligned width line false = codes "  " ++ line

unfoldable pub print_chat_message : ℕ → List ℕ → Bool → Chat → Chat
print_chat_message width line is_mine c =
    if c.active
    then record c { rows = other (aligned width line is_mine) ∷ c.rows; bottom_is_ai = false }
    else record c { rows = other line ∷ c.rows }

abbrev pub replace_newest : Row → List Row → List Row
replace_newest r [] = r ∷ []
replace_newest r (old ∷ rows) = r ∷ rows

-- `DrawAiLine`; the bottom row is drawn over if it is a line of the answer that is not ended.
unfoldable pub draw_ai_line : List ℕ → Bool → Chat → Bool × Chat
draw_ai_line line final c =
    let row = ai (codes "  " ++ line) in
    if c.active
    then (
      true,
      record c {
        rows = if c.bottom_is_ai then replace_newest row c.rows else row ∷ c.rows;
        bottom_is_ai = not final;
      },
    )
    else (false, c)

abbrev pub escape : List ℕ → List ℕ
escape s = 27 ∷ s

-- `AiLineText`
abbrev pub ai_line_text : Bool → List ℕ → List ℕ
ai_line_text first line =
    (if first then escape (codes "[1m[AI]") ++ (escape (codes "[0m ")) else codes "     ") ++ line

unfoldable pub flush_ai_line : ℕ → List ℕ → Chat → Chat
unfolding draw_ai_line print_chat_message
flush_ai_line width line c =
    let text = ai_line_text c.first_line line in
    let (drawn, d) = draw_ai_line text true c in
    record (if drawn then d else print_chat_message width text false d) {
      shown = false;
      first_line = false;
    }

-- `std::string::rfind` of a space.
unfoldable pub last_space : List ℕ → Option ℕ
last_space [] = none
last_space (c ∷ s) = elim (last_space s) [
  | some n ↦ some (suc n)
  | none ↦ if c == 32 then some 0 else none
]

-- Where `CutFront` cuts.
unfoldable pub front_cut : ℕ → List ℕ → ℕ
unfolding last_space cut_at display_width
front_cut max_width buf =
    let bytes = cut_at buf (min (length buf) 120) in
    elim (last_space buf) [
      | none ↦ bytes
      | some n ↦ if (n == 0) || ltb max_width (display_width (take n buf)) then bytes else n
    ]

abbrev pub skip_space : List ℕ → List ℕ
skip_space [] = []
skip_space (c ∷ s) = if c == 32 then s else c ∷ s

unfoldable pub cut_front : ℕ → List ℕ → List ℕ × List ℕ
unfolding front_cut
cut_front max_width buf = let n = front_cut max_width buf in (take n buf, skip_space (drop n buf))

-- The two loops: what is cut off the pending text, if something is.
abbrev pub next_line : List ℕ → Option (List ℕ × List ℕ)
next_line = split_at (10 ∷ [])

unfoldable pub next_wide : ℕ → List ℕ → Option (List ℕ × List ℕ)
unfolding cut_front display_width
next_wide max_width buf =
    if ltb max_width (display_width buf) then some (cut_front max_width buf) else none

-- `none` means that the fuel ran out.
unfoldable pub flush_while : ℕ → (List ℕ → Option (List ℕ × List ℕ)) → ℕ → Chat → Option Chat
unfolding flush_ai_line
flush_while width next zero c = none
flush_while width next (suc n) c = elim (next c.pending) [
  | none ↦ some c
  | some (line, rest) ↦
      flush_while width next n (record (flush_ai_line width line c) { pending = rest })
]

-- A row of the answer that has left the bottom is not drawn over.
unfoldable pub give_up : Chat → Chat
give_up c =
    if c.shown && not c.bottom_is_ai
    then record c { pending = []; shown = false; first_line = false }
    else c

abbrev pub error_text : List ℕ → List ℕ
error_text msg =
    escape (codes "[31m[AI] ")
    ++ (236 ∷ 152 ∷ 164 ∷ 235 ∷ 165 ∷ 152 ∷ codes ": " ++ (msg ++ escape (codes "[0m")))

-- The end of an answer behind its last line.
unfoldable pub close_answer : ℕ → AiChat → Chat → Chat
unfolding print_chat_message
close_answer width p c =
    let d = record c { pending = []; shown = false } in
    record (if p.success then d else print_chat_message width (error_text p.error_msg) false d) {
      first_line = true;
    }

unfoldable pub end_answer : ℕ → AiChat → Chat → Chat
unfolding flush_ai_line close_answer
end_answer width p c =
    close_answer width p (if is_empty c.pending then c else flush_ai_line width c.pending c)

unfoldable pub draw_pending : Chat → Chat
unfolding draw_ai_line
draw_pending c =
    let (drawn, d) = draw_ai_line (ai_line_text c.first_line c.pending) false c in
    if is_empty c.pending then c else record d { shown = drawn }

abbrev pub max_width : ℕ → ℕ
max_width width = max 30 (width - 12)

-- The two loops, one behind the other.
unfoldable pub flush_lines : ℕ → Chat → Option Chat
unfolding flush_while next_wide
flush_lines width c = elim (flush_while width next_line (suc (length c.pending)) c) [
  | none ↦ none
  | some d ↦ flush_while width (next_wide (max_width width)) (suc (length d.pending)) d
]

unfoldable pub handle_s_ai_chat : ℕ → AiChat → Chat → Option Chat
unfolding give_up flush_lines end_answer draw_pending
handle_s_ai_chat width p c =
    let started = give_up c in
    elim (flush_lines width (record started { pending = started.pending ++ p.text })) [
      | none ↦ none
      | some d ↦ some (if p.done then end_answer width p d else draw_pending d)
    ]
