-- ===== src/Client/AiLines/Loops.antt =====
-- The loops of `Handle_S_AI_CHAT` in Client/ServerPacketHandler.cpp: they end, and what they flush
-- is the text, line by line.
use mathlib.Core.List.{append_assoc}
use asio_chat_server.Common.{
  ℕ, zero, suc, ◌<◌, ◌≡◌, refl, sym, ap, subst, ◌∙◌, Bool, true, false, Option, some, List, [], ◌∷◌,
  ◌++◌, arith, if◌then◌else◌, length, codes, is_empty, inl, inr, Bool-cases, Option-cases,
  if_of_true, if_of_false,
}
use asio_chat_server.Common.Find.{Split}
use asio_chat_server.Client.AiLines.{
  Row, ai, other, Chat, replace_newest, ai_line_text, flush_ai_line, next_line, next_wide,
  flush_while, flush_lines, max_width,
}
use asio_chat_server.Client.AiLines.Cut.{
  ShortRuns, ShortRuns-suffix, ShortRuns-prefix, IsSep, Cuts, next_wide-Cuts, next_line-Cuts,
}

-- The lines, the newest first, and what is left of the text: between two lines at most a space or a
-- line end is lost.
abbrev pub Splits : List (List ℕ) → List ℕ → List ℕ → Type 0
Splits [] rest text = text ≡ rest
Splits (l ∷ ls) rest text = (sep : List ℕ) × (IsSep sep × Splits ls (l ++ (sep ++ rest)) text)

pub Splits-append :
    (ls : List (List ℕ)) (rest text more : List ℕ)
    → Splits ls rest text
    → Splits ls (rest ++ more) (text ++ more)
Splits-append [] rest text more e = ap (λ w. w ++ more) e
Splits-append (l ∷ ls) rest text more (sep, (lost, v)) = (
  sep,
  (
    lost,
    subst (λ w. Splits ls w (text ++ more))
        (append_assoc l (sep ++ rest) more ∙ ap (λ w. l ++ w) (append_assoc sep rest more))
        (Splits-append ls (l ++ (sep ++ rest)) text more v),
  ),
)

-- The rows of the answers, the newest first.
abbrev pub ai_texts : List Row → List (List ℕ)
ai_texts [] = []
ai_texts (ai s ∷ rows) = s ∷ ai_texts rows
ai_texts (other s ∷ rows) = ai_texts rows

-- A line as it is drawn; the first of an answer has the tag.
abbrev pub drawn_line : Bool → List ℕ → List ℕ
drawn_line first line = codes "  " ++ ai_line_text first line

abbrev pub drawn_lines : List (List ℕ) → List (List ℕ)
drawn_lines [] = []
drawn_lines (l ∷ ls) = drawn_line (is_empty ls) l ∷ drawn_lines ls

abbrev pub tail_of : List (List ℕ) → List (List ℕ)
tail_of [] = []
tail_of (x ∷ xs) = xs

-- The rows of the answers without the line that is not ended.
abbrev pub settled_rows : Chat → List (List ℕ)
settled_rows c = if c.shown then tail_of (ai_texts c.rows) else ai_texts c.rows

-- What holds in an answer whose text so far is `text`; `before` are the rows of earlier answers.
pub record Told (before : List (List ℕ)) (text : List ℕ) (ls : List (List ℕ)) (c : Chat)
    : Type 0 where
  pub active : c.active ≡ true
  pub split : Splits ls c.pending text
  pub tag : c.first_line ≡ is_empty ls
  pub drawn : settled_rows c ≡ drawn_lines ls ++ before
  pub bottom : c.bottom_is_ai ≡ true → (s : List ℕ) × ((rows : List Row) × (c.rows ≡ ai s ∷ rows))

-- No other message stands under the line that is not ended.
abbrev pub Undisturbed : Chat → Type 0
Undisturbed c = c.bottom_is_ai ≡ c.shown

abbrev pub put : Row → Chat → List Row
put row c = if c.bottom_is_ai then replace_newest row c.rows else row ∷ c.rows

pub put-newest : (s : List ℕ) (c : Chat) → (rows : List Row) × (put (ai s) c ≡ ai s ∷ rows)
put-newest s c = elim (Bool-cases c.bottom_is_ai) [
  | inr high ↦ (c.rows, rw high refl)
  | inl low ↦ replaced c.rows low
]
  where
    replaced :
        (rs : List Row)
        → c.bottom_is_ai ≡ true
        → (rows : List Row) × ((if c.bottom_is_ai then replace_newest (ai s) rs else ai s ∷ rs)
            ≡ ai s ∷ rows)
    replaced [] low = ([], rw low refl)
    replaced (r ∷ rs) low = (rs, rw low refl)

pub put-texts :
    (before : List (List ℕ)) (text : List ℕ) (ls : List (List ℕ)) (c : Chat) (s : List ℕ)
    → Told before text ls c
    → Undisturbed c
    → ai_texts (put (ai s) c) ≡ s ∷ drawn_lines ls ++ before
put-texts before text ls c s v same = elim (Bool-cases c.bottom_is_ai) [
  | inl low ↦
      let (t, (rows, e)) = v.bottom low in
      let shown : c.shown ≡ true = sym same ∙ low in
      let settled : ai_texts rows ≡ drawn_lines ls ++ before =
        ap (λ r. tail_of (ai_texts r)) (sym e) ∙ sym (if_of_true _ _ shown) ∙ v.drawn in
      rw low (rw e (ap (◌∷◌ s) settled))
  | inr high ↦
      let shown : c.shown ≡ false = sym same ∙ high in
      rw high (ap (◌∷◌ s) (sym (if_of_false _ _ shown) ∙ v.drawn))
]

flush_ai_line-active :
    (width : ℕ) (line : List ℕ) (c : Chat)
    → c.active ≡ true
    → flush_ai_line width line c ≡ record c {
      rows = put (ai (drawn_line c.first_line line)) c;
      bottom_is_ai = false;
      shown = false;
      first_line = false;
    }
unfolding flush_ai_line
flush_ai_line-active width line c active = rw active refl

-- The state after a line is flushed and the rest is kept.
abbrev pub after_flush : ℕ → List ℕ → List ℕ → Chat → Chat
after_flush width line rest c = record (flush_ai_line width line c) { pending = rest }

-- What holds after a line is flushed.
pub record Flushed (before : List (List ℕ)) (text : List ℕ) (ls : List (List ℕ)) (c : Chat)
    : Type 0 where
  pub told : Told before text ls c
  pub undisturbed : Undisturbed c
  pub full : c.shown ≡ true → is_empty c.pending ≡ false

pub after_flush-Flushed :
    (before : List (List ℕ)) (text : List ℕ) (ls : List (List ℕ)) (width : ℕ)
    (line sep rest : List ℕ) (c : Chat)
    → Flushed before text ls c
    → IsSep sep
    → c.pending ≡ line ++ (sep ++ rest)
    → Flushed before text (line ∷ ls) (after_flush width line rest c)
after_flush-Flushed before text ls width line sep rest c v lost e =
    let t = v.told in
    let flat =
      ap (λ (d : Chat). record d { pending = rest }) (flush_ai_line-active width line c t.active) in
    subst (Flushed before text (line ∷ ls)) (sym flat) (record {
      told = record {
        active = t.active;
        split = (sep, (lost, subst (λ w. Splits ls w text) e t.split));
        tag = refl;
        drawn =
            put-texts before text ls c (drawn_line c.first_line line) t v.undisturbed
            ∙ ap (λ b. drawn_line b line ∷ drawn_lines ls ++ before) t.tag;
        bottom = λ low. absurd cc;
      };
      undisturbed = refl;
      full = λ shown. absurd cc;
    })

-- A loop ends with enough fuel, and what it flushes are lines of the text, if every turn cuts the
-- text; `P` holds of the pending text all along.
pub flush_while-Flushed :
    (width : ℕ) (next : List ℕ → Option Split) (P : List ℕ → Type 0)
    (cuts : (buf : List ℕ) (x : Split) → P buf → next buf ≡ some x → Cuts buf x × P x.1)
    (before : List (List ℕ)) (text : List ℕ) (n : ℕ) (ls : List (List ℕ)) (c : Chat)
    → length c.pending < n
    → P c.pending
    → Flushed before text ls c
    → (c' : Chat) × ((ls' : List (List ℕ)) × ((flush_while width next n c ≡ some c')
          × (Flushed before text ls' c' × P c'.pending)))
unfolding flush_while
flush_while-Flushed width next P cuts before text zero ls c h p v = absurd (omega arith)
flush_while-Flushed width next P cuts before text (suc n) ls c h p v =
    elim (Option-cases (next c.pending)) [
      | inl over ↦ (c, (ls, (rw (over, flush_while) refl, (v, p))))
      | inr ((line, rest), found) ↦
          let (cut, p') = cuts c.pending (line, rest) p found in
          let d = after_flush width line rest c in
          let w =
            after_flush-Flushed before text ls width line cut.sep rest c v cut.lost cut.whole in
          let (c', (ls', (e, r))) =
            flush_while-Flushed width next P cuts before text n (line ∷ ls) d
              (let shorter = cut.shorter in omega arith) p' w in
          (c', (ls', (rw (found, flush_while) e, r)))
    ]

Cuts-ShortRuns :
    (buf rest : List ℕ) (x : Split)
    → Cuts buf x
    → ShortRuns 0 (buf ++ rest)
    → ShortRuns 0 (x.1 ++ rest)
Cuts-ShortRuns buf rest (l, r) cut v =
    let whole =
      ap (λ w. w ++ rest) (cut.whole ∙ sym (append_assoc l cut.sep r))
      ∙ append_assoc (l ++ cut.sep) r rest in
    ShortRuns-suffix 0 (l ++ cut.sep) (r ++ rest) (subst (ShortRuns 0) whole v)

-- Both loops end, and what they flush are lines of the text.
pub flush_lines-Flushed :
    (width : ℕ) (before : List (List ℕ)) (text rest : List ℕ) (ls : List (List ℕ)) (c : Chat)
    → ShortRuns 0 (c.pending ++ rest)
    → Flushed before text ls c
    → (c' : Chat) × ((ls' : List (List ℕ)) × ((flush_lines width c ≡ some c')
          × (Flushed before text ls' c' × ShortRuns 0 (c'.pending ++ rest))))
unfolding flush_lines
flush_lines-Flushed width before text rest ls c p v =
    let P = λ (buf : List ℕ). ShortRuns 0 (buf ++ rest) in
    let (d, (ls', (e, (w, q)))) =
      flush_while-Flushed width next_line P
        (λ buf x r found.
          let cut = next_line-Cuts buf x found in (cut, Cuts-ShortRuns buf rest x cut r))
        before text (suc (length c.pending)) ls c (omega arith) p v in
    let (c', (ls'', (f, (u, r)))) =
      flush_while-Flushed width (next_wide (max_width width)) P
        (λ buf x r found.
          let cut = next_wide-Cuts (max_width width) buf x (ShortRuns-prefix 0 buf rest r) found in
          (cut, Cuts-ShortRuns buf rest x cut r))
        before text (suc (length d.pending)) ls' d (omega arith) q w in
    (c', (ls'', (rw (e, flush_lines) f, (u, r))))
