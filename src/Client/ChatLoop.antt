-- ===== src/Client/ChatLoop.antt =====
-- `ClientApp::ChatLoop` of Client/ClientApp.cpp: the keys of the chat screen. Keys are the numbers that
-- `_getwch` returns; the conversion of a line to UTF-8 is a parameter. The prompt that is drawn again
-- after a key is not kept.
pub mod Lines
use asio_chat_server.Common.{
  ℕ, Bool, true, false, Option, none, some, List, [], ◌∷◌, ◌++◌, ◌==◌, if◌then◌else◌, ltb, bytes_eq,
  codes, is_empty,
}
use asio_chat_server.Client.AiLines.{Chat, print_chat_message}
use asio_chat_server.Client.Messages.{parse_whisper_input, escape, reset, whisper_tag}

pub data ChatMode : Type 0 where
  normal : ChatMode
  shout : ChatMode
  whisper : ChatMode
  ai_mode : ChatMode

-- The packets that the loop sends.
pub data Outgoing : Type 0 where
  c_chat : List ℕ → Outgoing
  c_shout : List ℕ → Outgoing
  c_whisper : List ℕ → List ℕ → Outgoing
  c_ai_chat : List ℕ → Outgoing
  c_exit_room : Outgoing

-- `GChatMode` and `GChatInput`, the screen, and the packets sent, the oldest first.
pub record Typing : Type 0 where
  pub mode : ChatMode
  pub input : List ℕ
  pub screen : Chat
  pub sent : List Outgoing

abbrev pub next_mode : ChatMode → ChatMode
next_mode normal = shout
next_mode shout = whisper
next_mode whisper = ai_mode
next_mode ai_mode = normal

-- `std::wstring::pop_back`, if there is a letter.
abbrev pub pop_back : List ℕ → List ℕ
pop_back [] = []
pop_back (c ∷ []) = []
pop_back (c ∷ d ∷ s) = c ∷ pop_back (d ∷ s)

abbrev send : Outgoing → Typing → Typing
send p t = record t { sent = t.sent ++ p ∷ [] }

abbrev echo : ℕ → List ℕ → Bool → Typing → Typing
echo width line is_mine t = record t { screen = print_chat_message width line is_mine t.screen }

abbrev wrong_form : List ℕ
wrong_form =
    escape (codes "[31m")
    ++ (whisper_tag
        ++ (codes "] "
            ++ ((237 ∷ 152 ∷ 149 ∷ 236 ∷ 139 ∷ 157 ∷ 32 ∷ 236 ∷ 152 ∷ 164 ∷ 235 ∷ 165 ∷ 152 ∷ 46
                  ∷ 32 ∷ 236 ∷ 130 ∷ 172 ∷ 236 ∷ 154 ∷ 169 ∷ 235 ∷ 178 ∷ 149 ∷ 58 ∷ 32 ∷ 47 ∷ 235
                  ∷ 140 ∷ 128 ∷ 236 ∷ 131 ∷ 129 ∷ 235 ∷ 139 ∷ 137 ∷ 235 ∷ 132 ∷ 164 ∷ 236 ∷ 158
                  ∷ 132 ∷ 32 ∷ 235 ∷ 169 ∷ 148 ∷ 236 ∷ 139 ∷ 156 ∷ 236 ∷ 167 ∷ 128 ∷ [])
                ++ reset)))

abbrev whisper_echo : List ℕ → List ℕ → List ℕ
whisper_echo target msg =
    escape (codes "[36m")
    ++ (whisper_tag
        ++ ((32 ∷ 226 ∷ 134 ∷ 146 ∷ 32 ∷ []) ++ (target ++ (codes "] " ++ (msg ++ reset)))))

abbrev ai_echo : List ℕ → List ℕ
ai_echo text =
    escape (codes "[93m")
    ++ (text
        ++ ((32 ∷ 91 ∷ 235 ∷ 130 ∷ 152 ∷ 32 ∷ 226 ∷ 134 ∷ 146 ∷ 32 ∷ 65 ∷ 73 ∷ 93 ∷ []) ++ reset))

-- A line that is neither empty nor "exit".
unfoldable pub send_line : ℕ → ChatMode → List ℕ → Typing → Typing
unfolding print_chat_message parse_whisper_input
send_line width normal text t = send (c_chat text) t
send_line width shout text t = send (c_shout text) t
send_line width ai_mode text t = echo width (ai_echo text) true (send (c_ai_chat text) t)
send_line width whisper text t = elim (parse_whisper_input text) [
  | none ↦ echo width wrong_form false t
  | some (target, msg) ↦ echo width (whisper_echo target msg) true (send (c_whisper target msg) t)
]

-- The room is left; the flag says that the loop has ended.
abbrev leave_chat : Typing → Bool × Typing
leave_chat t = (
  true,
  send c_exit_room (record t { screen = record t.screen { active = false; bottom_is_ai = false } }),
)

module _ (to_utf8 : List ℕ → List ℕ) (width : ℕ) where
  unfoldable pub enter_key : Typing → Bool × Typing
  unfolding send_line
  enter_key t =
      let text = to_utf8 t.input in
      let cleared = record t { input = [] } in
      if is_empty text
      then (false, cleared)
      else if bytes_eq text (codes "exit")
      then leave_chat cleared
      else (false, send_line width t.mode text cleared)

  -- A turn of the loop.
  unfoldable pub on_key : ℕ → Typing → Bool × Typing
  unfolding enter_key
  on_key key t =
      if key == 9
      then (false, record t { mode = next_mode t.mode })
      else if key == 13
      then enter_key t
      else if key == 8
      then (false, record t { input = pop_back t.input })
      else if ltb key 32
      then (false, t)
      else (false, record t { input = t.input ++ key ∷ [] })

  -- The keys up to the end of the loop.
  unfoldable pub run_keys : List ℕ → Typing → Bool × Typing
  unfolding on_key
  run_keys [] t = (false, t)
  run_keys (key ∷ keys) t =
      let (left, u) = on_key key t in let rest = run_keys keys u in if left then (true, u) else rest
