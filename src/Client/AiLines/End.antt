-- ===== src/Client/AiLines/End.antt =====
-- `Handle_S_AI_CHAT` of Client/ServerPacketHandler.cpp on the packet that ends the answer.
use mathlib.Core.List.{append-nil}
use asio_chat_server.Common.{
  ℕ, ◌≡◌, refl, sym, ap, subst, ◌∙◌, true, false, List, [], ◌∷◌, ◌++◌, arith, is_empty, inl, inr,
  Bool-cases, if_of_true, if_of_false,
}
use asio_chat_server.Client.AiLines.{
  other, aligned, error_text, Chat, AiChat, print_chat_message, flush_ai_line, close_answer,
  end_answer,
}
use asio_chat_server.Client.AiLines.Loops.{
  Splits, ai_texts, drawn_lines, Flushed, after_flush-Flushed,
}
use asio_chat_server.Client.AiLines.Piece.{Between, hidden_by}

-- What is left of an answer: its lines stand with those before, and the state is that before a first
-- packet.
pub record IsEnded (before : List (List ℕ)) (text : List ℕ) (c : Chat) : Type 0 where
  pub lines : List (List ℕ)
  pub whole : Splits lines [] text
  pub idle : Between (drawn_lines lines ++ before) [] [] c

abbrev idle_state : Chat → Chat
idle_state c = record c { pending = []; shown = false; first_line = true }

idle_state-Between :
    (rows : List (List ℕ)) (c : Chat)
    → c.active ≡ true
    → ai_texts c.rows ≡ rows
    → c.bottom_is_ai ≡ false
    → Between rows [] [] (idle_state c)
idle_state-Between rows c active drawn high = record {
  told = record {
    active = active;
    split = refl;
    tag = refl;
    drawn = drawn;
    bottom = λ low. absurd (let f = sym high ∙ low in cc);
  };
  low = λ low. absurd (let f = sym high ∙ low in cc);
  partial = λ shown. absurd cc;
  full = λ shown. absurd cc;
}

close_answer-Between :
    (width : ℕ) (p : AiChat) (rows : List (List ℕ)) (c : Chat)
    → c.active ≡ true
    → ai_texts c.rows ≡ rows
    → c.bottom_is_ai ≡ false
    → Between rows [] [] (close_answer width p c)
unfolding close_answer print_chat_message
close_answer-Between width p rows c active drawn high =
    let starting = λ (d : Chat). record d { first_line = true } in
    elim (Bool-cases p.success) [
      | inl good ↦
          subst (Between rows [] []) (sym (ap starting (if_of_true _ _ good)))
            (idle_state-Between rows c active drawn high)
      | inr bad ↦
          subst (Between rows [] [])
            (sym (ap starting (if_of_false _ _ bad ∙ if_of_true _ _ active)))
            (idle_state-Between rows
              (record c {
                rows = other (aligned width (error_text p.error_msg) false) ∷ c.rows;
                bottom_is_ai = false;
              })
              active drawn refl)
    ]

pub end_answer-IsEnded :
    (width : ℕ) (p : AiChat) (before : List (List ℕ)) (text : List ℕ) (ls : List (List ℕ))
    (c : Chat)
    → Flushed before text ls c
    → IsEnded before text (end_answer width p c)
unfolding end_answer flush_ai_line
end_answer-IsEnded width p before text ls c v = elim (Bool-cases (is_empty c.pending)) [
  | inl nothing ↦
      let t = v.told in
      let hidden = hidden_by c v.full nothing in
      record {
        lines = ls;
        whole = subst (λ w. Splits ls w text) (nil_of c.pending nothing) t.split;
        idle =
            subst (λ d. Between (drawn_lines ls ++ before) [] [] (close_answer width p d))
              (sym (if_of_true _ _ nothing))
              (close_answer-Between width p (drawn_lines ls ++ before) c t.active
                (sym (if_of_false _ _ hidden) ∙ t.drawn) (v.undisturbed ∙ hidden));
      }
  | inr some' ↦
      let w =
        after_flush-Flushed before text ls width c.pending [] [] c v (tt, omega arith)
          (sym (append-nil c.pending)) in
      let t = w.told in
      let rows = drawn_lines (c.pending ∷ ls) ++ before in
      record {
        lines = c.pending ∷ ls;
        whole = t.split;
        idle =
            subst (λ d. Between rows [] [] (close_answer width p d)) (sym (if_of_false _ _ some'))
              (close_answer-Between width p rows (flush_ai_line width c.pending c) t.active t.drawn
                w.undisturbed);
      }
]
  where
    nil_of : (s : List ℕ) → is_empty s ≡ true → s ≡ []
    nil_of [] e = refl
    nil_of (x ∷ s) e = absurd cc
