-- ===== src/Ai/HttpClient/Reading.antt =====
-- `fill` and `async_read_until` of Server/AI/HttpClient.cpp lose no byte of the stream, however it
-- is cut into reads.
use mathlib.Core.List.{append_assoc, append-nil}
use asio_chat_server.Common.{
  ℕ, ◌≤◌, ◌<◌, ◌≡◌, ◌≢◌, refl, sym, ap, subst, ◌∙◌, true, false, none, some, List, [], ◌∷◌, ◌++◌,
  arith, All, leb, length, length-append, inl, inr, Bool-cases, Option-cases, some_injective,
  none≢some,
}
use asio_chat_server.Common.Find.{
  split_at, split_at_sound, split_at-append, split_at-first, some_pair,
}
use asio_chat_server.Ai.HttpClient.Body.{Reads, flat, fill, read_until}

-- Enough bytes are to come: then `fill` brings them.
pub fill-enough :
    (need : ℕ) (buf : List ℕ) (ps : Reads)
    → need ≤ length (buf ++ flat ps)
    → (b : List ℕ) × ((left : Reads) × ((fill need buf ps ≡ (true, (b, left)))
          × ((b ++ flat left ≡ buf ++ flat ps) × (need ≤ length b))))
unfolding fill
fill-enough need buf [] h =
    let room : need ≤ length buf = rw (append-nil buf) at h in
    let yes' : leb need (length buf) ≡ true = ground arith in
    (buf, ([], (rw yes' refl, (refl, room))))
fill-enough need buf (p ∷ ps) h = elim (Bool-cases (leb need (length buf))) [
  | inl enough ↦ (buf, (p ∷ ps, (rw enough refl, (refl, ground arith))))
  | inr short ↦
      let (b, (left, (e, (whole, room)))) =
        fill-enough need (buf ++ p) ps (rw (append_assoc buf p (flat ps)) h) in
      (b, (left, (rw short e, (whole ∙ append_assoc buf p (flat ps), room))))
]

-- Too few bytes are to come: then `fill` finds the end.
pub fill-short :
    (need : ℕ) (buf : List ℕ) (ps : Reads)
    → length (buf ++ flat ps) < need
    → fill need buf ps ≡ (false, (buf ++ flat ps, []))
unfolding fill
fill-short need buf [] h =
    let room : length buf < need = rw (append-nil buf) at h in
    let no' : leb need (length buf) ≡ false = ground arith in rw (no', append-nil buf) refl
fill-short need buf (p ∷ ps) h =
    let size = rw (length-append buf (p ++ flat ps)) at h in
    let no' : leb need (length buf) ≡ false = ground arith in
    rw no' (
      fill-short need (buf ++ p) ps (rw (append_assoc buf p (flat ps)) h)
      ∙ ap (λ (w : List ℕ). (false, (w, []))) (append_assoc buf p (flat ps)))

pub fill-whole :
    (need : ℕ) (buf : List ℕ) (ps : Reads)
    → (fill need buf ps).1.0 ++ flat (fill need buf ps).1.1 ≡ buf ++ flat ps
unfolding fill
fill-whole need buf [] = refl
fill-whole need buf (p ∷ ps) = elim (Bool-cases (leb need (length buf))) [
  | inl enough ↦ rw enough refl
  | inr short ↦ rw short (fill-whole need (buf ++ p) ps ∙ append_assoc buf p (flat ps))
]

abbrev pub Line : Type 0
Line = List ℕ × (List ℕ × Reads)

-- The text before the pattern is read up to its end, and nothing behind it is lost.
pub read_until-found :
    (p : ℕ) (ps buf l r : List ℕ) (reads : Reads)
    → split_at (p ∷ ps) (buf ++ flat reads) ≡ some (l, r)
    → (b : List ℕ) × ((left : Reads) × ((read_until (p ∷ ps) buf reads ≡ some (l, (b, left)))
          × (b ++ flat left ≡ r)))
unfolding read_until
read_until-found p ps buf l r [] e =
    let found : split_at (p ∷ ps) buf ≡ some (l, r) = rw (append-nil buf) at e in
    (r, ([], (rw (found, read_until) refl, append-nil r)))
read_until-found p ps buf l r (q ∷ qs) e = elim (Option-cases (split_at (p ∷ ps) buf)) [
  | inl missing ↦
      let (b, (left, (f, whole))) =
        read_until-found p ps (buf ++ q) l r qs (rw (append_assoc buf q (flat qs)) e) in
      (b, (left, (rw (missing, read_until) f, whole)))
  | inr ((a, b), found) ↦
      let (same, whole) =
        some_pair a (b ++ (q ++ flat qs)) (l, r)
          (sym (split_at-append p ps buf (q ++ flat qs) a b found) ∙ e) in
      (b, (q ∷ qs, (rw (found, read_until) (rw same refl), whole)))
]

-- A line that comes is read up to its end.
pub read_until-line :
    (p : ℕ) (ps buf l r : List ℕ) (reads : Reads)
    → All (λ c. p ≢ c) l
    → buf ++ flat reads ≡ l ++ (p ∷ ps ++ r)
    → (b : List ℕ) × ((left : Reads) × ((read_until (p ∷ ps) buf reads ≡ some (l, (b, left)))
          × (b ++ flat left ≡ r)))
read_until-line p ps buf l r reads free e =
    read_until-found p ps buf l r reads (ap (split_at (p ∷ ps)) e ∙ split_at-first p ps l r free)

-- Without the pattern in the stream there is no line.
pub read_until-none :
    (p : ℕ) (ps buf : List ℕ) (reads : Reads)
    → split_at (p ∷ ps) (buf ++ flat reads) ≡ none
    → read_until (p ∷ ps) buf reads ≡ none
unfolding read_until
read_until-none p ps buf [] e =
    let missing : split_at (p ∷ ps) buf ≡ none = rw (append-nil buf) at e in
    rw (missing, read_until) refl
read_until-none p ps buf (q ∷ qs) e = elim (Option-cases (split_at (p ∷ ps) buf)) [
  | inl missing ↦
      rw (missing, read_until)
        (read_until-none p ps (buf ++ q) qs
          (ap (split_at (p ∷ ps)) (append_assoc buf q (flat qs)) ∙ e))
  | inr ((a, b), found) ↦ absurd (
      none≢some (a, b ++ (q ++ flat qs))
        (sym e ∙ split_at-append p ps buf (q ++ flat qs) a b found))
]

-- A line that is read is cut off the stream.
pub read_until-whole :
    (pat buf : List ℕ) (reads : Reads) (x : Line)
    → read_until pat buf reads ≡ some x
    → buf ++ flat reads ≡ x.0 ++ (pat ++ (x.1.0 ++ flat x.1.1))
unfolding read_until
read_until-whole pat buf [] x h = elim (Option-cases (split_at pat buf)) [
  | inl missing ↦ absurd (none≢some x (rw (missing, read_until) at h))
  | inr ((a, b), found) ↦
      let e : (a, (b, [])) ≡ x = some_injective (a, (b, [])) x (rw (found, read_until) at h) in
      subst (λ (y : Line). buf ++ [] ≡ y.0 ++ (pat ++ (y.1.0 ++ flat y.1.1))) e
        (rw (append-nil buf, append-nil b) (split_at_sound pat buf a b found))
]
read_until-whole pat buf (q ∷ qs) x h = elim (Option-cases (split_at pat buf)) [
  | inl missing ↦
      sym (append_assoc buf q (flat qs))
      ∙ read_until-whole pat (buf ++ q) qs x (rw (missing, read_until) at h)
  | inr ((a, b), found) ↦
      let e : (a, (b, q ∷ qs)) ≡ x =
        some_injective (a, (b, q ∷ qs)) x (rw (found, read_until) at h) in
      subst (λ (y : Line). buf ++ (q ++ flat qs) ≡ y.0 ++ (pat ++ (y.1.0 ++ flat y.1.1))) e
        (ap (λ w. w ++ (q ++ flat qs)) (split_at_sound pat buf a b found)
          ∙ append_assoc a (pat ++ b) (q ++ flat qs)
          ∙ ap (λ w. a ++ w) (append_assoc pat b (q ++ flat qs)))
]
