-- ===== src/Client/ChatLoop/Lines.antt =====
-- The line that the keys of `ClientApp::ChatLoop` in Client/ClientApp.cpp make, and what is sent.
use mathlib.Core.List.{append-nil}
use asio_chat_server.Common.{
  ℕ, zero, suc, ◌+◌, ◌%◌, ◌≡◌, ◌≢◌, refl, sym, ap, ◌∙◌, Bool, true, false, none, some, List, [],
  ◌∷◌, ◌++◌, arith, All, ◌==◌, if◌then◌else◌, ltb, bytes_eq, codes, is_empty, inl, inr, Bool-cases,
  Option-cases,
}
use asio_chat_server.Client.Messages.{parse_whisper_input}
use asio_chat_server.Client.ChatLoop.{
  ChatMode, normal, shout, whisper, ai_mode, Outgoing, c_chat, c_shout, c_whisper, c_ai_chat,
  Typing, next_mode, pop_back, send_line, enter_key, on_key, run_keys,
}

abbrev rest_of : List ℕ → List ℕ
rest_of [] = []
rest_of (c ∷ s) = s

-- What a key does to the letters on the line, the last one first.
abbrev pub pressed : ℕ → List ℕ → List ℕ
pressed key line = if key == 8 then rest_of line else if ltb key 32 then line else key ∷ line

abbrev pub typed : List ℕ → List ℕ → List ℕ
typed line [] = line
typed line (key ∷ keys) = typed (pressed key line) keys

-- Every tab goes on to the next mode.
abbrev pub switched : ℕ → ChatMode → ChatMode
switched key m = if key == 9 then next_mode m else m

abbrev mode_after : ChatMode → List ℕ → ChatMode
mode_after m [] = m
mode_after m (key ∷ keys) = mode_after (switched key m) keys

-- The modes in the order of `enum class`, and how often tab was pressed.
abbrev pub mode_number : ChatMode → ℕ
mode_number normal = 0
mode_number shout = 1
mode_number whisper = 2
mode_number ai_mode = 3

abbrev pub mode_at : ℕ → ChatMode
mode_at zero = normal
mode_at (suc zero) = shout
mode_at (suc (suc zero)) = whisper
mode_at (suc (suc (suc n))) = ai_mode

abbrev pub tabs : List ℕ → ℕ
tabs [] = 0
tabs (key ∷ keys) = if key == 9 then tabs keys + 1 else tabs keys

next-number :
    (m : ChatMode) (n : ℕ) → (mode_number (next_mode m) + n) % 4 ≡ (mode_number m + (n + 1)) % 4
next-number normal n = omega arith
next-number shout n = omega arith
next-number whisper n = omega arith
next-number ai_mode n = omega arith

mode_at-number : (m : ChatMode) → mode_at ((mode_number m + 0) % 4) ≡ m
mode_at-number normal = refl
mode_at-number shout = refl
mode_at-number whisper = refl
mode_at-number ai_mode = refl

mode_after-number :
    (keys : List ℕ) (m : ChatMode) → mode_after m keys ≡ mode_at ((mode_number m + tabs keys) % 4)
mode_after-number [] m = sym (mode_at-number m)
mode_after-number (key ∷ keys) m = elim (Bool-cases (key == 9)) [
  | inl tab ↦ rw tab (mode_after-number keys (next_mode m) ∙ ap mode_at (next-number m (tabs keys)))
  | inr other ↦ rw other (mode_after-number keys m)
]

-- The letters in the order of the line.
abbrev pub forward : List ℕ → List ℕ
forward [] = []
forward (c ∷ s) = forward s ++ c ∷ []

-- The packets for a line in a mode.
abbrev pub packets_for : ChatMode → List ℕ → List Outgoing
packets_for normal text = c_chat text ∷ []
packets_for shout text = c_shout text ∷ []
packets_for ai_mode text = c_ai_chat text ∷ []
packets_for whisper text = elim (parse_whisper_input text) [
  | none ↦ []
  | some (target, msg) ↦ c_whisper target msg ∷ []
]

pop_back-last : (s : List ℕ) (c : ℕ) → pop_back (s ++ c ∷ []) ≡ s
pop_back-last [] c = refl
pop_back-last (d ∷ []) c = refl
pop_back-last (d ∷ e ∷ s) c = ap (◌∷◌ d) (pop_back-last (e ∷ s) c)

pop_back-forward : (line : List ℕ) → pop_back (forward line) ≡ forward (rest_of line)
pop_back-forward [] = refl
pop_back-forward (c ∷ s) = pop_back-last (forward s) c

abbrev with_line : ChatMode → List ℕ → Typing → Typing
with_line m line t = record t { mode = m; input = forward line }

module _ (to_utf8 : List ℕ → List ℕ) (width : ℕ) where
  -- A key that is not the end of the line.
  on_key-typed :
      (key : ℕ) (m : ChatMode) (line : List ℕ) (t : Typing)
      → 13 ≢ key
      → on_key to_utf8 width key (with_line m line t)
        ≡ (false, with_line (switched key m) (pressed key line) t)
  unfolding on_key
  on_key-typed key m line t other =
      let no_enter : (key == 13) ≡ false = ground arith in
      elim (Bool-cases (key == 9)) [
        | inl tab ↦ let same : key ≡ 9 = grind arith in rw same refl
        | inr no_tab ↦ elim (Bool-cases (key == 8)) [
          | inl back ↦
              let same : key ≡ 8 = grind arith in
              rw same (
                ap (λ (s : List ℕ). (false, record t { mode = m; input = s }))
                  (pop_back-forward line))
          | inr letter ↦ elim (Bool-cases (ltb key 32)) [
            | inl control ↦ rw (no_tab, no_enter, letter) (rw control refl)
            | inr plain ↦ rw (no_tab, no_enter, letter) (rw plain refl)
          ]
        ]
      ]

  keys-typed :
      (keys : List ℕ) (m : ChatMode) (line : List ℕ) (t : Typing)
      → All (λ key. 13 ≢ key) keys
      → (next : ℕ)
      → run_keys to_utf8 width (keys ++ next ∷ []) (with_line m line t)
        ≡ run_keys to_utf8 width (next ∷ []) (with_line (mode_after m keys) (typed line keys) t)
  unfolding run_keys
  keys-typed [] m line t free next = refl
  keys-typed (key ∷ keys) m line t (other, free) next =
      ap
        (λ (x : Bool × Typing).
          if x.0 then (true, x.1) else run_keys to_utf8 width (keys ++ next ∷ []) x.1)
        (on_key-typed key m line t other)
      ∙ keys-typed keys (switched key m) (pressed key line) t free next

  send_line-packets :
      (m : ChatMode) (text : List ℕ) (t : Typing)
      → (send_line width m text t).sent ≡ t.sent ++ packets_for m text
  unfolding send_line
  send_line-packets normal text t = refl
  send_line-packets shout text t = refl
  send_line-packets ai_mode text t = refl
  send_line-packets whisper text t = elim (Option-cases (parse_whisper_input text)) [
    | inl wrong ↦ rw (wrong, send_line) (rw (wrong, packets_for) (sym (append-nil t.sent)))
    | inr ((target, msg), good) ↦ rw (good, send_line) (rw (good, packets_for) refl)
  ]

  enter-sends :
      (t : Typing)
      → is_empty (to_utf8 t.input) ≡ false
      → bytes_eq (to_utf8 t.input) (codes "exit") ≡ false
      → (run_keys to_utf8 width (13 ∷ []) t).1.sent ≡ t.sent ++ packets_for t.mode (to_utf8 t.input)
  unfolding run_keys on_key enter_key
  enter-sends t full stays =
      let text = to_utf8 t.input in
      let cleared = record t { input = [] } in
      rw (full, stays) (send_line-packets t.mode text cleared)

  -- The keys of a line send one packet, when the line is ended: of the kind of the mode that the tabs
  -- have led to, one mode for each in the order normal, shout, whisper, ai and around, with the
  -- letters that the erasures have left; a whisper sends it only if it has its form. For a line that
  -- is empty at first, any keys but the end of the line, and a line that is at last neither empty
  -- nor "exit".
  pub run_keys-sends :
      (keys : List ℕ) (t : Typing)
      → All (λ key. 13 ≢ key) keys
      → t.input ≡ []
      → is_empty (to_utf8 (forward (typed [] keys))) ≡ false
      → bytes_eq (to_utf8 (forward (typed [] keys))) (codes "exit") ≡ false
      → (run_keys to_utf8 width (keys ++ 13 ∷ []) t).1.sent
        ≡ t.sent
          ++ packets_for
              (mode_at ((mode_number t.mode + tabs keys) % 4))
              (to_utf8 (forward (typed [] keys)))
  run_keys-sends keys t free blank full stays =
      ap
        (λ (s : List ℕ). (run_keys to_utf8 width (keys ++ 13 ∷ []) (record t { input = s })).1.sent)
        blank
      ∙ ap (λ (x : Bool × Typing). x.1.sent) (keys-typed keys t.mode [] t free 13)
      ∙ enter-sends (with_line (mode_after t.mode keys) (typed [] keys) t) full stays
      ∙ ap (λ (m : ChatMode). t.sent ++ packets_for m (to_utf8 (forward (typed [] keys))))
          (mode_after-number keys t.mode)
