-- ===== src/Client/AiLines/Answer.antt =====
-- `Handle_S_AI_CHAT` of Client/ServerPacketHandler.cpp: a whole answer, with other messages between
-- its packets.
use mathlib.Core.List.{append_assoc, append-nil}
use asio_chat_server.Common.{
  ℕ, ◌≡◌, refl, sym, ap, subst, ◌∙◌, Bool, true, false, Option, none, some, List, [], ◌∷◌, ◌++◌,
  inl, inr, if_of_true, if_of_false, if_both, Option-cases, none≢some, some_injective,
}
use asio_chat_server.Client.AiLines.{
  Chat, AiChat, print_chat_message, flush_lines, give_up, end_answer, handle_s_ai_chat,
}
use asio_chat_server.Client.AiLines.Cut.{ShortRuns}
use asio_chat_server.Client.AiLines.Loops.{ai_texts}
use asio_chat_server.Client.AiLines.Piece.{Between, flushed, packet-Between, message-Between}
use asio_chat_server.Client.AiLines.End.{IsEnded, end_answer-IsEnded}

-- What comes to the screen during an answer: its packets and other messages.
pub data Event : Type 0 where
  packet : AiChat → Event
  message : List ℕ → Bool → Event

unfoldable pub run_events : ℕ → List Event → Chat → Option Chat
unfolding handle_s_ai_chat print_chat_message
run_events width [] c = some c
run_events width (packet p ∷ es) c = elim (handle_s_ai_chat width p c) [
  | none ↦ none
  | some d ↦ run_events width es d
]
run_events width (message line is_mine ∷ es) c =
    run_events width es (print_chat_message width line is_mine c)

-- The text of the packets, and that none of them ends the answer.
abbrev pub event_text : List Event → List ℕ
event_text [] = []
event_text (packet p ∷ es) = p.text ++ event_text es
event_text (message line is_mine ∷ es) = event_text es

abbrev pub NoneDone : List Event → Type 0
NoneDone [] = Unit
NoneDone (packet p ∷ es) = (p.done ≡ false) × NoneDone es
NoneDone (message line is_mine ∷ es) = NoneDone es

run_events-append :
    (width : ℕ) (es ds : List Event) (c d : Chat)
    → run_events width es c ≡ some d
    → run_events width (es ++ ds) c ≡ run_events width ds d
unfolding run_events
run_events-append width [] ds c d e = ap (run_events width ds) (some_injective c d e)
run_events-append width (packet p ∷ es) ds c d e =
    elim (Option-cases (handle_s_ai_chat width p c)) [
      | inl starved ↦ absurd (none≢some d (rw (starved, run_events) at e))
      | inr (c', handled) ↦
          rw (handled, run_events)
            (run_events-append width es ds c' d (rw (handled, run_events) at e))
    ]
run_events-append width (message line is_mine ∷ es) ds c d e =
    run_events-append width es ds (print_chat_message width line is_mine c) d e

run_events-last :
    (width : ℕ) (p : AiChat) (c d : Chat)
    → handle_s_ai_chat width p c ≡ some d
    → run_events width (packet p ∷ []) c ≡ some d
unfolding run_events
run_events-last width p c d e = rw (e, run_events) refl

handle_s_ai_chat-done :
    (width : ℕ) (p : AiChat) (c d : Chat)
    → p.done ≡ true
    → flush_lines width (record (give_up c) { pending = (give_up c).pending ++ p.text }) ≡ some d
    → handle_s_ai_chat width p c ≡ some (end_answer width p d)
unfolding handle_s_ai_chat
handle_s_ai_chat-done width p c d done e = rw (e, handle_s_ai_chat) (ap some (if_of_true _ _ done))

print_chat_message-pending :
    (width : ℕ) (line : List ℕ) (is_mine : Bool) (c : Chat)
    → (print_chat_message width line is_mine c).pending ≡ c.pending
unfolding print_chat_message
print_chat_message-pending width line is_mine c =
    if_both (λ (d : Chat). d.pending ≡ c.pending) c.active _ _ refl refl

events-Between :
    (width : ℕ) (es : List Event) (before : List (List ℕ)) (text rest : List ℕ) (ls : List (List ℕ))
    (c : Chat)
    → NoneDone es
    → Between before text ls c
    → ShortRuns 0 (c.pending ++ (event_text es ++ rest))
    → (c' : Chat) × ((ls' : List (List ℕ)) × ((run_events width es c ≡ some c')
          × (Between before (text ++ event_text es) ls' c' × ShortRuns 0 (c'.pending ++ rest))))
unfolding run_events
events-Between width [] before text rest ls c more v runs =
    (c, (ls, (refl, (subst (λ w. Between before w ls c) (sym (append-nil text)) v, runs))))
events-Between width (packet p ∷ es) before text rest ls c (m, more) v runs =
    let (d, (ls', (e, (w, q)))) =
      packet-Between width before text (event_text es ++ rest) p ls c m v (
        subst (λ s. ShortRuns 0 (c.pending ++ s)) (append_assoc p.text (event_text es) rest)
          runs) in
    let (c', (ls'', (f, (u, r)))) =
      events-Between width es before (text ++ p.text) rest ls' d more w q in
    (
      c',
      (
        ls'',
        (
          rw (e, run_events) f,
          (subst (λ s. Between before s ls'' c') (append_assoc text p.text (event_text es)) u, r),
        ),
      ),
    )
events-Between width (message line is_mine ∷ es) before text rest ls c more v runs =
    events-Between width es before text rest ls (print_chat_message width line is_mine c) more
      (message-Between width line is_mine before text ls c v)
      (subst (λ s. ShortRuns 0 (s ++ (event_text es ++ rest)))
        (sym (print_chat_message-pending width line is_mine c)) runs)

-- The state before a first packet, on the screen of the chat.
pub record IsIdle (c : Chat) : Type 0 where
  pub active : c.active ≡ true
  pub nothing : c.pending ≡ []
  pub hidden : c.shown ≡ false
  pub tagged : c.first_line ≡ true
  pub high : c.bottom_is_ai ≡ false

idle-Between : (c : Chat) → IsIdle c → Between (ai_texts c.rows) [] [] c
idle-Between c v = record {
  told = record {
    active = v.active;
    split = sym v.nothing;
    tag = v.tagged;
    drawn = if_of_false _ _ v.hidden;
    bottom = λ low. absurd (let f = sym v.high ∙ low in cc);
  };
  low = λ low. absurd (let f = sym v.high ∙ low in cc);
  partial = λ shown. absurd (let f = sym v.hidden ∙ shown in cc);
  full = λ shown. absurd (let f = sym v.hidden ∙ shown in cc);
}

-- An answer comes to the screen whole and in order: its rows are its lines, the first with the tag,
-- and between two lines at most a space or a line end is lost; the loops of every packet end, and
-- the state afterwards is that before a first packet. For any cut of the text into packets, any
-- width, any other messages in between, and a text with at most three continuation bytes in a row.
pub answer-IsEnded :
    (width : ℕ) (es : List Event) (p : AiChat) (c : Chat)
    → IsIdle c
    → NoneDone es
    → p.done ≡ true
    → ShortRuns 0 (event_text es ++ p.text)
    → (c' : Chat) × ((run_events width (es ++ packet p ∷ []) c ≡ some c')
        × IsEnded (ai_texts c.rows) (event_text es ++ p.text) c')
answer-IsEnded width es p c idle more last runs =
    let before = ai_texts c.rows in
    let (d, (ls, (e, (v, q)))) =
      events-Between width es before [] p.text [] c more (idle-Between c idle)
        (subst (λ s. ShortRuns 0 (s ++ (event_text es ++ p.text))) (sym idle.nothing) runs) in
    let (d', (ls', (f, (w, r)))) =
      flushed width before (event_text es) p.text [] ls d v
        (subst (λ s. ShortRuns 0 (d.pending ++ s)) (sym (append-nil p.text)) q) in
    (
      end_answer width p d',
      (
        run_events-append width es (packet p ∷ []) c d e
            ∙ run_events-last width p d (end_answer width p d')
                (handle_s_ai_chat-done width p d d' last f),
        end_answer-IsEnded width p before (event_text es ++ p.text) ls' d' w,
      ),
    )
