-- ===== src/Ai/SseParser/Chunks.antt =====
-- Server/AI/SseParser.h: where the stream is cut into chunks makes no difference.
use mathlib.Core.List.{append_assoc, append-nil}
use asio_chat_server.Common.{
  ℕ, ◌≡◌, refl, sym, ap, ◌∙◌, false, List, [], ◌∷◌, ◌++◌, arith, ◌==◌, Bool-cases, inl, inr,
}
use asio_chat_server.Ai.SseParser.{
  SseParser, cons_line, cut_lines, handle_line, handle_lines, strip_cr, feed, feed_all,
}

-- The rest of a text, cut together with what follows, continues the lines of the text.
cut_lines-append :
    (xs ys : List ℕ)
    → cut_lines (xs ++ ys) ≡ (
      (cut_lines xs).0 ++ (cut_lines ((cut_lines xs).1 ++ ys)).0,
      (cut_lines ((cut_lines xs).1 ++ ys)).1,
    )
unfolding cut_lines
cut_lines-append [] ys = refl
cut_lines-append (x ∷ xs) ys = elim (Bool-cases (x == 10)) [
  | inl e ↦ rw e (rw (cut_lines-append xs ys) refl)
  | inr e ↦ rw e (rw (cut_lines-append xs ys) (onward e (cut_lines xs).0 (cut_lines xs).1))
]
  where
    onward :
        x == 10 ≡ false
        → (ls : List (List ℕ)) (rest : List ℕ)
        → cons_line x (ls ++ (cut_lines (rest ++ ys)).0, (cut_lines (rest ++ ys)).1) ≡ (
          (cons_line x (ls, rest)).0 ++ (cut_lines ((cons_line x (ls, rest)).1 ++ ys)).0,
          (cut_lines ((cons_line x (ls, rest)).1 ++ ys)).1,
        )
    onward e [] rest = rw e refl
    onward e (l ∷ ls) rest = refl

handle_lines-append :
    (ls ms : List (List ℕ)) (p : SseParser)
    → handle_lines (ls ++ ms) p ≡ handle_lines ms (handle_lines ls p)
unfolding handle_lines
handle_lines-append [] ms p = refl
handle_lines-append (l ∷ ls) ms p = handle_lines-append ls ms (handle_line (strip_cr l) p)

-- What is still buffered has no part in the lines that are handled.
abbrev with_rest : List ℕ → SseParser → SseParser
with_rest rest p = record p { buffered = rest }

handle_line-rest :
    (l rest : List ℕ) (p : SseParser)
    → handle_line l (with_rest rest p) ≡ with_rest rest (handle_line l p)
unfolding handle_line
handle_line-rest [] rest p = ground arith
handle_line-rest (c ∷ cs) rest p = ground arith

handle_lines-rest :
    (ls : List (List ℕ)) (rest : List ℕ) (p : SseParser)
    → handle_lines ls (with_rest rest p) ≡ with_rest rest (handle_lines ls p)
unfolding handle_lines
handle_lines-rest [] rest p = refl
handle_lines-rest (l ∷ ls) rest p =
    rw (handle_line-rest (strip_cr l) rest p)
      (handle_lines-rest ls rest (handle_line (strip_cr l) p))

feed-append : (xs ys : List ℕ) (p : SseParser) → feed (xs ++ ys) p ≡ feed ys (feed xs p)
unfolding feed
feed-append xs ys p =
    let ls = (cut_lines (p.buffered ++ xs)).0 in
    let rest = (cut_lines (p.buffered ++ xs)).1 in
    rw (← append_assoc p.buffered xs ys, cut_lines-append (p.buffered ++ xs) ys)
      (rw
        (
          handle_lines-append ls (cut_lines (rest ++ ys)).0 p,
          handle_lines-rest (cut_lines (rest ++ ys)).0 rest (handle_lines ls p),
        )
        refl)

abbrev pub concat : List (List ℕ) → List ℕ
concat [] = []
concat (c ∷ cs) = c ++ concat cs

-- However a stream is cut into chunks, feeding the chunks one after the other leaves the parser as
-- feeding the whole stream at once does, with the same calls of the callback: from any state of the
-- parser, for a stream of at least one chunk.
pub feed_all-concat :
    (c : List ℕ) (cs : List (List ℕ)) (p : SseParser)
    → feed_all (c ∷ cs) p ≡ feed (concat (c ∷ cs)) p
unfolding feed_all
feed_all-concat c [] p = ap (λ b. feed b p) (sym (append-nil c))
feed_all-concat c (d ∷ cs) p =
    feed_all-concat d cs (feed c p) ∙ sym (feed-append c (concat (d ∷ cs)) p)
