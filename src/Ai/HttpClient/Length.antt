-- ===== src/Ai/HttpClient/Length.antt =====
-- The bodies of `Exchange` in Server/AI/HttpClient.cpp that are not sent in chunks.
use asio_chat_server.Common.{
  ℕ, zero, suc, ◌-◌, ◌≤◌, ◌<◌, ◌≡◌, refl, sym, ap, subst, ◌∙◌, true, false, Option, List, [], ◌∷◌,
  ◌++◌, arith, ◌==◌, if◌then◌else◌, leb, min, length, take, drop, length-append, length-drop,
  take-append, drop-append, take-nil, is_empty, inl, inr, Bool-cases, if_of_true, if_of_false,
}
use asio_chat_server.Ai.HttpClient.Body.{
  BodyEnd, complete, Body, ending, Reads, flat, fill, cut_short, by_length, length_body, open_body,
}
use asio_chat_server.Ai.HttpClient.Reading.{fill-whole}

-- `fill` of one byte comes back with none only at the end of the stream.
fill-empty :
    (buf : List ℕ) (ps : Reads)
    → is_empty (fill 1 buf ps).1.0 ≡ true
    → flat (fill 1 buf ps).1.1 ≡ []
unfolding fill
fill-empty [] [] e = refl
fill-empty [] (p ∷ ps) e = fill-empty p ps e
fill-empty (c ∷ buf) [] e = refl
fill-empty (c ∷ buf) (p ∷ ps) e =
    let enough : leb 1 (suc (length buf)) ≡ true = ground arith in
    let f = rw enough at e in absurd cc

take-take :
    {A : Type 0} (t n : ℕ) (xs : List A) → t ≤ n → take t xs ++ take (n - t) (drop t xs) ≡ take n xs
take-take zero n xs h = ap (λ k. take k xs) (omega arith)
take-take (suc t) zero xs h = absurd (omega arith)
take-take (suc t) (suc n) [] h = take-nil (suc n - suc t)
take-take (suc t) (suc n) (x ∷ xs) h =
    ap (◌∷◌ x)
      (ap (λ k. take t xs ++ take k (drop t xs)) (omega arith) ∙ take-take t n xs (omega arith))

leb-cut : (a b t : ℕ) → t ≤ a → t ≤ b → leb (a - t) (b - t) ≡ leb a b
leb-cut a b t h k = ground arith

-- The bytes that are handed out, one part after the other, and the end.
pub record Delivers (text : List ℕ) (ended : BodyEnd) (b : Body) : Type 0 where
  pub bytes : flat b.chunks ≡ text
  pub ends : b.ended ≡ ended

module _ (broken : Option (List ℕ)) where
  -- How a body of `left` bytes ends on a stream.
  abbrev pub length_end : ℕ → List ℕ → BodyEnd
  length_end left stream = if leb left (length stream) then complete else cut_short broken complete

  by_length-Delivers :
      (n left : ℕ) (next : ℕ → List ℕ → Body) (buf tail : List ℕ)
      → 0 < left
      → (is_empty buf ≡ true → tail ≡ [])
      → ((l : ℕ) (b : List ℕ)
          → length (b ++ tail) < n
          → Delivers (take l (b ++ tail)) (length_end l (b ++ tail)) (next l b))
      → length (buf ++ tail) < suc n
      → Delivers
          (take left (buf ++ tail))
          (length_end left (buf ++ tail))
          (by_length broken next left buf)
  by_length-Delivers n left next [] tail more over ih h =
      let no' : leb left 0 ≡ false = ground arith in
      subst (λ w. Delivers (take left w) (length_end left w) (ending (cut_short broken complete)))
        (sym (over refl)) (record { bytes = sym (take-nil left); ends = sym (if_of_false _ _ no') })
  by_length-Delivers n left next (c ∷ buf) tail more over ih h =
      let w = c ∷ buf in
      let t = min (length w) left in
      let sizes = length-append w tail in
      let rest = length-append (drop t w) tail in
      let dropped = length-drop t w in
      let shorter : length (drop t w ++ tail) ≡ length (w ++ tail) - t = omega arith in
      let v = ih (left - t) (drop t w) (omega arith) in
      let same = leb-cut left (length (w ++ tail)) t (omega arith) (omega arith) in
      record {
        bytes =
            ap (λ u. take t w ++ u)
              (v.bytes ∙ ap (take (left - t)) (sym (drop-append t w tail (omega arith))))
            ∙ ap (λ u. u ++ take (left - t) (drop t (w ++ tail)))
                (sym (take-append t w tail (omega arith)))
            ∙ take-take t left (w ++ tail) (omega arith);
        ends =
            v.ends
            ∙ ap (λ b. if b then complete else cut_short broken complete)
                (ap (leb (left - t)) shorter ∙ same);
      }

  -- A body with a length: what is handed out is the first bytes of the stream, as many as the length
  -- says or as there are, and the end is an exception only if the stream is too short and a read
  -- threw. Fuel of one turn more than there are bytes is enough.
  pub length_body-Delivers :
      (n left : ℕ) (buf : List ℕ) (reads : Reads)
      → length (buf ++ flat reads) < n
      → Delivers
          (take left (buf ++ flat reads))
          (length_end left (buf ++ flat reads))
          (length_body broken n left buf reads)
  unfolding length_body
  length_body-Delivers zero left buf reads h = absurd (omega arith)
  length_body-Delivers (suc n) left buf reads h = elim (Bool-cases (left == 0)) [
    | inl nothing ↦ record {
      bytes = rw (nothing, length_body) (ap (λ k. take k (buf ++ flat reads)) (zero' nothing));
      ends = rw (nothing, length_body) (sym (if_of_true _ _ (zero_leb nothing)));
    }
    | inr more ↦
        let bytes = (fill 1 buf reads).1.0 in
        let rest = (fill 1 buf reads).1.1 in
        let whole = fill-whole 1 buf reads in
        rw (more, length_body)
          (subst
            (λ w.
              Delivers (take left w) (length_end left w)
                (by_length broken (λ l b. length_body broken n l b rest) left bytes))
            whole
            (by_length-Delivers n left (λ l b. length_body broken n l b rest) bytes (flat rest)
              (ground arith) (fill-empty buf reads) (λ l b. length_body-Delivers n l b rest)
              (rw whole h)))
  ]
    where
      zero' : left == 0 ≡ true → 0 ≡ left
      zero' e = ground arith

      zero_leb : left == 0 ≡ true → leb left (length (buf ++ flat reads)) ≡ true
      zero_leb e = ground arith

  -- A body without a length is the whole stream, part by part.
  pub open_body-Delivers :
      (buf : List ℕ) (reads : Reads)
      → Delivers (buf ++ flat reads) (cut_short broken complete) (open_body broken buf reads)
  unfolding open_body
  open_body-Delivers [] [] = record { bytes = refl; ends = refl }
  open_body-Delivers (c ∷ buf) [] = record { bytes = refl; ends = refl }
  open_body-Delivers [] (p ∷ ps) = open_body-Delivers p ps
  open_body-Delivers (c ∷ buf) (p ∷ ps) =
      let v = open_body-Delivers p ps in
      record { bytes = ap (λ w. (c ∷ buf) ++ w) v.bytes; ends = v.ends }
