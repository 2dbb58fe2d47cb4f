-- ===== src/Client/AiLines/Piece.antt =====
-- `Handle_S_AI_CHAT` of Client/ServerPacketHandler.cpp on a packet that does not end the answer, and
-- `PrintChatMessage` of Client/ClientApp.cpp in between.
use mathlib.Core.List.{append_assoc, append-nil}
use asio_chat_server.Common.{
  ℕ, ◌≡◌, refl, sym, ap, subst, ◌∙◌, Bool, true, false, not, ◌&&◌, some, List, [], ◌∷◌, ◌++◌, arith,
  is_empty, inl, inr, Bool-cases, if_of_true, if_of_false,
}
use asio_chat_server.Client.AiLines.{
  ai, Chat, AiChat, print_chat_message, draw_ai_line, flush_lines, give_up, draw_pending,
  handle_s_ai_chat,
}
use asio_chat_server.Client.AiLines.Cut.{ShortRuns, ShortRuns-suffix}
use asio_chat_server.Client.AiLines.Loops.{
  Splits, Splits-append, ai_texts, tail_of, drawn_line, drawn_lines, Told, put, put-texts,
  put-newest, Flushed, flush_lines-Flushed,
}

-- What holds between two packets: a line that is not ended is drawn as it is.
pub record Between (before : List (List ℕ)) (text : List ℕ) (ls : List (List ℕ)) (c : Chat)
    : Type 0 where
  pub told : Told before text ls c
  pub low : c.bottom_is_ai ≡ true → c.shown ≡ true
  pub partial :
      c.shown ≡ true
      → ai_texts c.rows ≡ drawn_line c.first_line c.pending ∷ drawn_lines ls ++ before
  pub full : c.shown ≡ true → is_empty c.pending ≡ false

-- A line that other messages have pushed up counts as ended.
give_up-Flushed :
    (before : List (List ℕ)) (text rest : List ℕ) (ls : List (List ℕ)) (c : Chat)
    → Between before text ls c
    → ShortRuns 0 (c.pending ++ rest)
    → (ls' : List (List ℕ)) × (Flushed before text ls' (give_up c)
        × ShortRuns 0 ((give_up c).pending ++ rest))
unfolding give_up
give_up-Flushed before text rest ls c v p =
    let t = v.told in
    let cond = c.shown && not c.bottom_is_ai in
    let lost = record c { pending = []; shown = false; first_line = false } in
    elim (Bool-cases cond) [
      | inl given ↦
          let shown : c.shown ≡ true = ground arith in
          let high : c.bottom_is_ai ≡ false = ground arith in
          (
            c.pending ∷ ls,
            subst
                (λ (d : Chat).
                  Flushed before text (c.pending ∷ ls) d × ShortRuns 0 (d.pending ++ rest))
                (sym (if_of_true lost c given))
                (
                  record {
                    told = record {
                      active = t.active;
                      split = (
                        [],
                        (
                          (tt, omega arith),
                          subst (λ w. Splits ls w text) (sym (append-nil c.pending)) t.split,
                        ),
                      );
                      tag = refl;
                      drawn =
                          v.partial shown
                          ∙ ap (λ b. drawn_line b c.pending ∷ drawn_lines ls ++ before) t.tag;
                      bottom = t.bottom;
                    };
                    undisturbed = high;
                    full = λ e. absurd cc;
                  },
                  ShortRuns-suffix 0 c.pending rest p,
                ),
          )
      | inr kept ↦ (
        ls,
        subst (λ (d : Chat). Flushed before text ls d × ShortRuns 0 (d.pending ++ rest))
            (sym (if_of_false lost c kept))
            (record { told = t; undisturbed = same v.low kept; full = v.full }, p),
      )
    ]
  where
    same :
        (c.bottom_is_ai ≡ true → c.shown ≡ true)
        → (c.shown && not c.bottom_is_ai) ≡ false
        → c.bottom_is_ai ≡ c.shown
    same low kept = ground (arith, low)

-- A piece of text is put behind the pending text.
piece-Flushed :
    (before : List (List ℕ)) (text piece : List ℕ) (ls : List (List ℕ)) (c : Chat)
    → Flushed before text ls c
    → Flushed before (text ++ piece) ls (record c { pending = c.pending ++ piece })
piece-Flushed before text piece ls c v =
    let t = v.told in
    record {
      told = record {
        active = t.active;
        split = Splits-append ls c.pending text piece t.split;
        tag = t.tag;
        drawn = t.drawn;
        bottom = t.bottom;
      };
      undisturbed = v.undisturbed;
      full = λ shown. longer c.pending (v.full shown);
    }
  where
    longer : (s : List ℕ) → is_empty s ≡ false → is_empty (s ++ piece) ≡ false
    longer [] e = absurd cc
    longer (x ∷ s) e = refl

draw_pending-active :
    (c : Chat)
    → c.active ≡ true
    → is_empty c.pending ≡ false
    → draw_pending c ≡ record c {
      rows = put (ai (drawn_line c.first_line c.pending)) c;
      bottom_is_ai = true;
      shown = true;
    }
unfolding draw_pending draw_ai_line
draw_pending-active c active some' =
    if_of_false _ _ some'
    ∙ ap (λ (x : Bool × Chat). record x.1 { shown = x.0 }) (if_of_true _ _ active)

pub hidden_by :
    (c : Chat)
    → (c.shown ≡ true → is_empty c.pending ≡ false)
    → is_empty c.pending ≡ true
    → c.shown ≡ false
hidden_by c full nothing = ground (arith, full)

draw_pending-Between :
    (before : List (List ℕ)) (text : List ℕ) (ls : List (List ℕ)) (c : Chat)
    → Flushed before text ls c
    → Between before text ls (draw_pending c)
unfolding draw_pending
draw_pending-Between before text ls c v =
    let t = v.told in
    elim (Bool-cases (is_empty c.pending)) [
      | inl nothing ↦
          let hidden : c.shown ≡ false = hidden_by c v.full nothing in
          subst (Between before text ls) (sym (if_of_true _ _ nothing)) (record {
            told = t;
            low = λ low. sym v.undisturbed ∙ low;
            partial = λ shown. absurd (let f = sym hidden ∙ shown in cc);
            full = v.full;
          })
      | inr some' ↦
          let line = drawn_line c.first_line c.pending in
          let texts = put-texts before text ls c line t v.undisturbed in
          subst (Between before text ls) (sym (draw_pending-active c t.active some')) (record {
            told = record {
              active = t.active;
              split = t.split;
              tag = t.tag;
              drawn = ap tail_of texts;
              bottom = λ low. (line, put-newest line c);
            };
            low = λ low. refl;
            partial = λ shown. texts;
            full = λ shown. some';
          })
    ]

draw_pending-pending : (c : Chat) → c.active ≡ true → (draw_pending c).pending ≡ c.pending
unfolding draw_pending
draw_pending-pending c active = elim (Bool-cases (is_empty c.pending)) [
  | inl nothing ↦ ap (λ (d : Chat). d.pending) (if_of_true _ _ nothing)
  | inr some' ↦ ap (λ (d : Chat). d.pending) (draw_pending-active c active some')
]

-- The packet up to the loops: the piece is taken over, and its lines are flushed.
pub flushed :
    (width : ℕ) (before : List (List ℕ)) (text piece rest : List ℕ) (ls : List (List ℕ)) (c : Chat)
    → Between before text ls c
    → ShortRuns 0 (c.pending ++ (piece ++ rest))
    → (d : Chat) × ((ls' : List (List ℕ)) × ((flush_lines width
              (record (give_up c) { pending = (give_up c).pending ++ piece })
            ≡ some d)
          × (Flushed before (text ++ piece) ls' d × ShortRuns 0 (d.pending ++ rest))))
flushed width before text piece rest ls c v p =
    let (ls', (w, q)) = give_up-Flushed before text (piece ++ rest) ls c v p in
    let started = give_up c in
    flush_lines-Flushed width before (text ++ piece) rest ls'
      (record started { pending = started.pending ++ piece })
      (subst (ShortRuns 0) (sym (append_assoc started.pending piece rest)) q)
      (piece-Flushed before text piece ls' started w)

-- A packet that does not end the answer.
pub packet-Between :
    (width : ℕ) (before : List (List ℕ)) (text rest : List ℕ) (p : AiChat) (ls : List (List ℕ))
    (c : Chat)
    → p.done ≡ false
    → Between before text ls c
    → ShortRuns 0 (c.pending ++ (p.text ++ rest))
    → (c' : Chat) × ((ls' : List (List ℕ)) × ((handle_s_ai_chat width p c ≡ some c')
          × (Between before (text ++ p.text) ls' c' × ShortRuns 0 (c'.pending ++ rest))))
unfolding handle_s_ai_chat
packet-Between width before text rest p ls c more v runs =
    let (d, (ls', (e, (w, q)))) = flushed width before text p.text rest ls c v runs in
    (
      draw_pending d,
      (
        ls',
        (
          rw (e, handle_s_ai_chat) (ap some (if_of_false _ _ more)),
          (
            draw_pending-Between before (text ++ p.text) ls' d w,
            subst (λ s. ShortRuns 0 (s ++ rest)) (sym (draw_pending-pending d w.told.active)) q,
          ),
        ),
      ),
    )

-- Another message on the screen.
pub message-Between :
    (width : ℕ) (line : List ℕ) (is_mine : Bool) (before : List (List ℕ)) (text : List ℕ)
    (ls : List (List ℕ)) (c : Chat)
    → Between before text ls c
    → Between before text ls (print_chat_message width line is_mine c)
unfolding print_chat_message
message-Between width line is_mine before text ls c v =
    let t = v.told in
    subst (Between before text ls) (sym (if_of_true _ _ t.active)) (record {
      told = record {
        active = t.active;
        split = t.split;
        tag = t.tag;
        drawn = t.drawn;
        bottom = λ low. absurd cc;
      };
      low = λ low. absurd cc;
      partial = v.partial;
      full = v.full;
    })
