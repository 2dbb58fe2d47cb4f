-- ===== src/Client/Messages/Aligned.antt =====
-- `PrintChatMessage` of Client/ClientApp.cpp sets one's own messages against the right edge.
use asio_chat_server.Common.{
  ℕ, zero, suc, ◌+◌, ◌-◌, ◌≡◌, refl, ap, ◌∙◌, Bool, true, List, [], ◌∷◌, ◌++◌, arith, max, length,
  replicate, bytes_eq_refl, if_of_true,
}
use asio_chat_server.Client.ConsoleUi.{display_width, width_from}
use asio_chat_server.Client.AiLines.{other, Chat, aligned, print_chat_message}
use asio_chat_server.Client.Messages.{chat_line, handle_s_chat}

width_from-space : (n : ℕ) (s : List ℕ) → width_from (suc n) (32 ∷ s) ≡ 1 + width_from n s
width_from-space n [] = refl
width_from-space n (c ∷ s) = refl

width-spaces :
    (n : ℕ) (line : List ℕ) → display_width (replicate n 32 ++ line) ≡ n + display_width line
unfolding display_width
width-spaces zero line = omega arith
width-spaces (suc n) line =
    width_from-space (length (replicate n 32 ++ line)) (replicate n 32 ++ line)
    ∙ (let rest = width-spaces n line in omega arith)

-- The row that a message of one's own has on the screen of the chat ends one column before the edge,
-- or is as wide as its text if that is wider.
pub handle_s_chat-aligned :
    (width : ℕ) (me msg : List ℕ) (c : Chat)
    → c.active ≡ true
    → (row : List ℕ) × (((handle_s_chat width me me msg c).rows ≡ other row ∷ c.rows)
        × (display_width row ≡ max (display_width (chat_line me me msg).0) (width - 1)))
unfolding handle_s_chat print_chat_message
handle_s_chat-aligned width me msg c active =
    let line = (chat_line me me msg).0 in
    let mine : (chat_line me me msg).1 ≡ true =
      ap (λ (x : List ℕ × Bool). x.1) (if_of_true _ _ (bytes_eq_refl me)) in
    (
      aligned width line true,
      (
        ap (λ (d : Chat). d.rows) (if_of_true _ _ active)
            ∙ ap (λ b. other (aligned width line b) ∷ c.rows) mine,
        width-spaces (width - display_width line - 1) line ∙ omega arith,
      ),
    )
