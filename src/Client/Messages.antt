-- ===== src/Client/Messages.antt =====
-- `ParseWhisperInput` of Client/ClientApp.cpp, and the handlers of Client/ServerPacketHandler.cpp
-- that print a message: the line, and whether it is one's own. Texts are their bytes.
pub mod Whisper
pub mod Aligned
use asio_chat_server.Common.{
  ℕ, Bool, true, false, not, Option, none, some, List, [], ◌∷◌, ◌++◌, ◌==◌, if◌then◌else◌, bytes_eq,
  codes, is_empty,
}
use asio_chat_server.Common.Int.{ℤ}
use asio_chat_server.Common.Find.{split_at}
use asio_chat_server.Client.AiLines.{Chat, print_chat_message}

-- The target and the message of "/target message".
unfoldable pub parse_whisper_input : List ℕ → Option (List ℕ × List ℕ)
parse_whisper_input [] = none
parse_whisper_input (c ∷ s) =
    if c == 47
    then (elim (split_at (32 ∷ []) s) [
      | none ↦ none
      | some ([], msg) ↦ none
      | some (d ∷ target, []) ↦ none
      | some (d ∷ target, e ∷ msg) ↦ some (d ∷ target, e ∷ msg)
    ])
    else none

abbrev pub escape : List ℕ → List ℕ
escape s = 27 ∷ s

abbrev pub reset : List ℕ
reset = escape (codes "[0m")

abbrev print_line : ℕ → List ℕ × Bool → Chat → Chat
print_line width (line, is_mine) c = print_chat_message width line is_mine c

abbrev pub chat_line : List ℕ → List ℕ → List ℕ → List ℕ × Bool
chat_line me name msg =
    if bytes_eq name me
    then (msg ++ (codes " [" ++ (name ++ codes "]")), true)
    else (codes "[" ++ (name ++ (codes "] " ++ msg)), false)

-- `Handle_S_CHAT`
unfoldable pub handle_s_chat : ℕ → List ℕ → List ℕ → List ℕ → Chat → Chat
unfolding bytes_eq
handle_s_chat width me name msg c = print_line width (chat_line me name msg) c

abbrev shout_tag : List ℕ
shout_tag = codes "[" ++ ((237 ∷ 153 ∷ 149 ∷ 236 ∷ 132 ∷ 177 ∷ 234 ∷ 184 ∷ 176 ∷ []) ++ codes " ")

abbrev orange : List ℕ
orange = escape (codes "[38;5;208m")

abbrev shout_line : List ℕ → List ℕ → List ℕ → List ℕ × Bool
shout_line me name msg =
    if bytes_eq name me
    then (orange ++ (msg ++ (codes " " ++ (shout_tag ++ (name ++ (codes "]" ++ reset))))), true)
    else (orange ++ (shout_tag ++ (name ++ (codes "] " ++ (msg ++ reset)))), false)

-- `Handle_S_SHOUT`
unfoldable pub handle_s_shout : ℕ → List ℕ → List ℕ → List ℕ → Chat → Chat
unfolding bytes_eq
handle_s_shout width me name msg c = print_line width (shout_line me name msg) c

abbrev pub whisper_tag : List ℕ
whisper_tag = codes "[" ++ (234 ∷ 183 ∷ 147 ∷ 236 ∷ 134 ∷ 141 ∷ 235 ∷ 167 ∷ 144 ∷ [])

-- `Handle_S_WHISPER`
unfoldable pub handle_s_whisper : ℕ → Bool → List ℕ → List ℕ → List ℕ → Chat → Chat
handle_s_whisper width success from msg error c =
    if not success
    then print_line width
        (escape (codes "[31m") ++ (whisper_tag ++ (codes "] " ++ (error ++ reset))), false) c
    else print_line width
        (
          escape (codes "[36m")
              ++ (whisper_tag
                  ++ ((32 ∷ 226 ∷ 134 ∷ 144 ∷ 32 ∷ [])
                      ++ (from ++ (codes "] " ++ (msg ++ reset))))),
          false,
        )
        c
