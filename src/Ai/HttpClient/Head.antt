-- ===== src/Ai/HttpClient/Head.antt =====
-- `ParseHead` of Server/AI/HttpClient.cpp reads the status and the headers of a response.
use asio_chat_server.Common.{
  ℕ, zero, suc, ◌+◌, ◌*◌, ◌^◌, ◌<◌, ◌≡◌, ◌≢◌, refl, ap, ◌∙◌, false, none, some, List, [], ◌∷◌, ◌++◌,
  arith, All, All-append, ◌==◌, length, length-append, codes,
}
use asio_chat_server.Common.Int.{pos}
use asio_chat_server.Common.Find.{
  split_at-first, digit, read_digits, read_digits-digit, from_chars-digits,
}
use asio_chat_server.Ai.HttpClient.{
  crlf, to_lower, Headers, set_header, read_status, status_of, drop_spaces, add_line, parse_lines,
  parse_head,
}

-- Three decimal digits.
abbrev pub code_text : ℕ → ℕ → ℕ → List ℕ
code_text a b c = (48 + a) ∷ (48 + b) ∷ (48 + c) ∷ []

abbrev pub header_text : List ℕ × List ℕ → List ℕ
header_text (k, v) = k ++ (codes ":" ++ (codes " " ++ v))

abbrev pub lines_text : List (List ℕ × List ℕ) → List ℕ → List ℕ
lines_text [] rest = rest
lines_text (h ∷ hs) rest = header_text h ++ (crlf ++ lines_text hs rest)

-- A header as it is sent: no line break in it, no colon in its name, and no space in front of its
-- value.
pub record IsHeader (h : List ℕ × List ℕ) : Type 0 where
  pub name_line : All (λ c. 13 ≢ c) h.0
  pub name_colon : All (λ c. 58 ≢ c) h.0
  pub named : 0 < length h.0
  pub value_line : All (λ c. 13 ≢ c) h.1
  pub value_start : drop_spaces h.1 ≡ h.1

abbrev pub add_all : List (List ℕ × List ℕ) → Headers → Headers
add_all [] m = m
add_all ((k, v) ∷ hs) m = add_all hs (set_header (to_lower k) v m)

digit-decimal : (a : ℕ) → a < 10 → digit 10 (48 + a) ≡ some a
unfolding digit
digit-decimal a h = ground arith

read_digits-code :
    (a b c : ℕ)
    → a < 10
    → b < 10
    → c < 10
    → read_digits 10 none (code_text a b c) ≡ some ((a * 10 + b) * 10 + c)
unfolding read_digits
read_digits-code a b c ha hb hc =
    read_digits-digit 10 none (48 + a) a ((48 + b) ∷ (48 + c) ∷ []) (digit-decimal a ha)
    ∙ ap (λ k. read_digits 10 (some k) ((48 + b) ∷ (48 + c) ∷ [])) (omega arith)
    ∙ read_digits-digit 10 (some a) (48 + b) b ((48 + c) ∷ []) (digit-decimal b hb)
    ∙ read_digits-digit 10 (some (a * 10 + b)) (48 + c) c [] (digit-decimal c hc)

read_status-code :
    (a b c : ℕ)
    → a < 10
    → b < 10
    → c < 10
    → read_status (code_text a b c) ≡ pos ((a * 10 + b) * 10 + c)
unfolding read_status
read_status-code a b c ha hb hc =
    let n = (a * 10 + b) * 10 + c in
    let plain : ((48 + a) == 45) ≡ false = ground arith in
    let small : n < 2 ^ 31 = omega arith in
    rw
      (
        plain,
        from_chars-digits 10 (2 ^ 31) n (code_text a b c) (read_digits-code a b c ha hb hc) small,
      )
      refl

add_line-header :
    (h : List ℕ × List ℕ) (m : Headers)
    → IsHeader h
    → add_line (header_text h) m ≡ set_header (to_lower h.0) h.1 m
unfolding add_line
add_line-header (k, v) m w =
    rw (split_at-first 58 [] k (codes " " ++ v) w.name_colon, add_line)
      (ap (λ x. set_header (to_lower k) x m) w.value_start)

pub header_text-line : (h : List ℕ × List ℕ) → IsHeader h → All (λ c. 13 ≢ c) (header_text h)
header_text-line (k, v) w =
    All-append (λ c. 13 ≢ c) k (58 ∷ 32 ∷ v) w.name_line
      ((λ e. absurd (omega arith)), ((λ e. absurd (omega arith)), w.value_line))

parse_lines-turn :
    (n : ℕ) (line rest : List ℕ) (m : Headers)
    → All (λ c. 13 ≢ c) line
    → 0 < length line
    → parse_lines (suc n) (line ++ (crlf ++ rest)) m ≡ parse_lines n rest (add_line line m)
unfolding parse_lines
parse_lines-turn n [] rest m free some' = absurd (omega arith)
parse_lines-turn n (d ∷ line) rest m free some' =
    rw (split_at-first 13 (10 ∷ []) (d ∷ line) rest free, parse_lines) refl

parse_lines-empty : (n : ℕ) (rest : List ℕ) (m : Headers) → parse_lines (suc n) (crlf ++ rest) m ≡ m
unfolding parse_lines
parse_lines-empty n rest m = rw (split_at-first 13 (10 ∷ []) [] rest tt, parse_lines) refl

parse_lines-lines :
    (hs : List (List ℕ × List ℕ)) (rest : List ℕ) (m : Headers) (n : ℕ)
    → All IsHeader hs
    → length hs < n
    → parse_lines n (lines_text hs (crlf ++ rest)) m ≡ add_all hs m
parse_lines-lines hs rest m zero ws h = absurd (omega arith)
parse_lines-lines [] rest m (suc n) ws h = parse_lines-empty n rest m
parse_lines-lines ((k, v) ∷ hs) rest m (suc n) (w, ws) h =
    parse_lines-turn n (header_text (k, v)) (lines_text hs (crlf ++ rest)) m
      (header_text-line (k, v) w) (omega (arith, length-append k (58 ∷ 32 ∷ v), w.named))
    ∙ ap (parse_lines n (lines_text hs (crlf ++ rest))) (add_line-header (k, v) m w)
    ∙ parse_lines-lines hs rest (set_header (to_lower k) v m) n ws (omega arith)

status_of-line :
    (version reason : List ℕ) (a b c : ℕ)
    → a < 10
    → b < 10
    → c < 10
    → All (λ c. 32 ≢ c) version
    → status_of (version ++ (codes " " ++ (code_text a b c ++ reason)))
      ≡ pos ((a * 10 + b) * 10 + c)
unfolding status_of
status_of-line version reason a b c ha hb hc free =
    rw (split_at-first 32 [] version (code_text a b c ++ reason) free, status_of)
      (read_status-code a b c ha hb hc)

-- The first line of a response.
abbrev pub status_line : List ℕ → ℕ → ℕ → ℕ → List ℕ → List ℕ
status_line version a b c reason = version ++ (codes " " ++ (code_text a b c ++ reason))

pub record IsStatusLine (version : List ℕ) (a b c : ℕ) (reason : List ℕ) : Type 0 where
  pub version_line : All (λ c. 13 ≢ c) version
  pub version_word : All (λ c. 32 ≢ c) version
  pub first : a < 10
  pub second : b < 10
  pub third : c < 10
  pub reason_line : All (λ c. 13 ≢ c) reason

pub status_line-line :
    (version : List ℕ) (a b c : ℕ) (reason : List ℕ)
    → IsStatusLine version a b c reason
    → All (λ c. 13 ≢ c) (status_line version a b c reason)
status_line-line version a b c reason v =
    All-append (λ c. 13 ≢ c) version (32 ∷ (code_text a b c ++ reason)) v.version_line
      (
        no_break 32 (omega arith),
        (
          no_break (48 + a) (omega arith),
          (no_break (48 + b) (omega arith), (no_break (48 + c) (omega arith), v.reason_line)),
        ),
      )
  where
    no_break : (d : ℕ) → 13 < d → 13 ≢ d
    no_break d h e = absurd (omega arith)

length-lines_text :
    (hs : List (List ℕ × List ℕ)) (rest : List ℕ)
    → length hs < length (lines_text hs (crlf ++ rest))
length-lines_text [] rest = omega arith
length-lines_text ((k, v) ∷ hs) rest =
    let more = length-lines_text hs rest in
    let sizes = length-append (header_text (k, v)) (crlf ++ lines_text hs (crlf ++ rest)) in
    omega arith

-- The head of a response is read as it was written: the status is the number of the three digits,
-- and the headers are the lines, their names in lower case, a later line replacing one of the same
-- name.
pub parse_head-lines :
    (version : List ℕ) (a b c : ℕ) (reason : List ℕ) (hs : List (List ℕ × List ℕ)) (rest : List ℕ)
    → IsStatusLine version a b c reason
    → All IsHeader hs
    → parse_head (status_line version a b c reason ++ (crlf ++ lines_text hs (crlf ++ rest)))
      ≡ record { status = pos ((a * 10 + b) * 10 + c); headers = add_all hs [] }
unfolding parse_head
parse_head-lines version a b c reason hs rest v ws =
    let lines = lines_text hs (crlf ++ rest) in
    rw
      (
        split_at-first 13 (10 ∷ []) (status_line version a b c reason) lines
            (status_line-line version a b c reason v),
        parse_head,
      )
      (rw
        (
          status_of-line version reason a b c v.first v.second v.third v.version_word,
          parse_lines-lines hs rest [] (length lines) ws (length-lines_text hs rest),
        )
        refl)
