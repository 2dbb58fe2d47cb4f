-- ===== src/Ai/SseParser/Events.antt =====
-- Server/AI/SseParser.h reads back the events of a stream that is written line by line.
use mathlib.Core.List.{append_assoc, append-nil}
use asio_chat_server.Common.{
  ℕ, ◌≡◌, ◌≢◌, refl, sym, ap, ◌∙◌, List, [], ◌∷◌, ◌++◌, arith, codes, bytes_eq,
}
use asio_chat_server.Ai.SseParser.{
  SseParser, new_parser, cut_lines, handle_line, handle_lines, strip_cr, feed,
}

-- A text that stands on one line.
abbrev pub OneLine : List ℕ → Type 0
OneLine [] = Unit
OneLine (c ∷ cs) = (c ≢ 10) × OneLine cs

pub record IsEvent (e : List ℕ × List ℕ) : Type 0 where
  pub named : e.0 ≢ []
  pub name_line : OneLine e.0
  pub name_end : strip_cr e.0 ≡ e.0
  pub data_line : OneLine e.1
  pub data_end : strip_cr e.1 ≡ e.1

abbrev pub AreEvents : List (List ℕ × List ℕ) → Type 0
AreEvents [] = Unit
AreEvents (e ∷ es) = IsEvent e × AreEvents es

abbrev pub stream_text : List (List ℕ × List ℕ) → List ℕ
stream_text [] = []
stream_text ((name, text) ∷ es) =
    (codes "event: " ++ name) ++ 10 ∷ ((codes "data: " ++ text) ++ 10 ∷ 10 ∷ stream_text es)

abbrev stream_lines : List (List ℕ × List ℕ) → List (List ℕ)
stream_lines [] = []
stream_lines ((name, text) ∷ es) =
    (codes "event: " ++ name) ∷ (codes "data: " ++ text) ∷ [] ∷ stream_lines es

cut_lines-line :
    (l rest : List ℕ)
    → OneLine l
    → cut_lines (l ++ 10 ∷ rest) ≡ (l ∷ (cut_lines rest).0, (cut_lines rest).1)
unfolding cut_lines
cut_lines-line [] rest one = refl
cut_lines-line (c ∷ cs) rest (h, hs) = rw (cut_lines-line cs rest hs) (ground arith)

OneLine-after :
    (l : List ℕ) → OneLine l → OneLine (codes "event: " ++ l) × OneLine (codes "data: " ++ l)
OneLine-after l one = (
  (
    omega arith,
    (omega arith, (omega arith, (omega arith, (omega arith, (omega arith, (omega arith, one)))))),
  ),
  (omega arith, (omega arith, (omega arith, (omega arith, (omega arith, (omega arith, one)))))),
)

cut_lines-stream_text :
    (es : List (List ℕ × List ℕ))
    → AreEvents es
    → cut_lines (stream_text es) ≡ (stream_lines es, [])
cut_lines-stream_text [] v = unfold cut_lines in refl
cut_lines-stream_text ((name, text) ∷ es) (v, vs) =
    cut_lines-line (codes "event: " ++ name) _ (OneLine-after name v.name_line).0
    ∙ rw
        (
          cut_lines-line (codes "data: " ++ text) (10 ∷ stream_text es)
              (OneLine-after text v.data_line).1,
          cut_lines-line [] (stream_text es) tt,
          cut_lines-stream_text es vs,
        )
        refl

-- The parser between two events.
abbrev between_events : List (List ℕ × List ℕ) → SseParser
between_events events = record new_parser { events = events }

strip_cr-after :
    (l : List ℕ)
    → strip_cr l ≡ l
    → (strip_cr (codes "event: " ++ l) ≡ codes "event: " ++ l)
      × (strip_cr (codes "data: " ++ l) ≡ codes "data: " ++ l)
unfolding strip_cr
strip_cr-after [] e = (refl, refl)
strip_cr-after (c ∷ cs) e = (rw e refl, rw e refl)

handle_line-event :
    (name text : List ℕ) (done : List (List ℕ × List ℕ))
    → name ≢ []
    → handle_line [] (
        handle_line
          (codes "data: " ++ text)
          (handle_line (codes "event: " ++ name) (between_events done)))
      ≡ between_events (done ++ (name, text) ∷ [])
unfolding handle_line bytes_eq
handle_line-event [] text done h = absurd (h refl)
handle_line-event (c ∷ cs) text done h = refl

handle_lines-cons :
    (l : List ℕ) (ls : List (List ℕ)) (p : SseParser)
    → strip_cr l ≡ l
    → handle_lines (l ∷ ls) p ≡ handle_lines ls (handle_line l p)
handle_lines-cons l ls p e = unfolded ∙ ap (λ x. handle_lines ls (handle_line x p)) e
  where
    unfolded : handle_lines (l ∷ ls) p ≡ handle_lines ls (handle_line (strip_cr l) p)
    unfolded = unfold handle_lines in refl

handle_lines-stream_lines :
    (es done : List (List ℕ × List ℕ))
    → AreEvents es
    → handle_lines (stream_lines es) (between_events done) ≡ between_events (done ++ es)
handle_lines-stream_lines [] done v =
    unfold handle_lines in ap between_events (sym (append-nil done))
handle_lines-stream_lines ((name, text) ∷ es) done (v, vs) =
    handle_lines-cons (codes "event: " ++ name) _ _ (strip_cr-after name v.name_end).0
    ∙ handle_lines-cons (codes "data: " ++ text) _ _ (strip_cr-after text v.data_end).1
    ∙ handle_lines-cons [] (stream_lines es) _ (unfold strip_cr in refl)
    ∙ ap (handle_lines (stream_lines es)) (handle_line-event name text done v.named)
    ∙ handle_lines-stream_lines es (done ++ (name, text) ∷ []) vs
    ∙ ap between_events (append_assoc done ((name, text) ∷ []) es)

-- A stream that writes each event as a line with its name, a line with its data and an empty line
-- is read back: the callback gets just these events in order, and nothing is left over. The names
-- are not empty, and no name or text holds a line end or ends in a carriage return.
pub feed-stream_text :
    (es : List (List ℕ × List ℕ))
    → AreEvents es
    → feed (stream_text es) new_parser ≡ record new_parser { events = es }
feed-stream_text es v =
    fed ∙ rw (cut_lines-stream_text es v) (rw (handle_lines-stream_lines es [] v) refl)
  where
    fed :
        feed (stream_text es) new_parser
        ≡ record (handle_lines (cut_lines (stream_text es)).0 new_parser) {
          buffered = (cut_lines (stream_text es)).1;
        }
    fed = unfold feed in refl
