-- ===== src/Ai/ClaudeClient/Once.antt =====
-- `Claude::StreamMessage` of Server/AI/ClaudeClient.cpp hands out the text of one attempt only.
use asio_chat_server.Common.{
  ℕ, zero, suc, ◌+◌, ◌≤◌, ◌<◌, ◌≡◌, refl, sym, ap, true, false, not, Option, none, some, List, [],
  ◌∷◌, arith, ◌==◌, ◌&&◌, inl, inr, Bool-cases, Option-cases, codes,
}
use asio_chat_server.Ai.SseParser.{new_parser, feed_all, finish}
use asio_chat_server.Ai.ClaudeClient.{
  max_attempts, Json, Exchange, Result, Attempt, new_attempt, by_type, on_event, on_events, is_ok,
  read_body, judge, try_exchange, attempts_from, stream_message, key,
}

-- Text was handed out only if that is noted, and the number of the attempt is kept.
pub record Keeps (k : ℕ) (a : Attempt) : Type 0 where
  pub quiet : a.text_started ≡ false → a.told ≡ []
  pub numbered : a.result.attempts ≡ k

module _ (json : Json) (k : ℕ) where
  by_type-Keeps :
      (kind : List ℕ) (j : json.Value) (a : Attempt) → Keeps k a → Keeps k (by_type json kind j a).1
  unfolding by_type
  by_type-Keeps kind j a v = ground (arith, v.quiet, v.numbered)

  on_event-Keeps : (e : List ℕ × List ℕ) (a : Attempt) → Keeps k a → Keeps k (on_event json e a).1
  unfolding on_event
  on_event-Keeps (name, text) a v = elim (Option-cases (json.parse text)) [
    | inl none_read ↦ rw (none_read, on_event) v
    | inr (j, read) ↦ elim (Option-cases (json.text_or (key (codes "type")) name j)) [
      | inl bad ↦ rw (read, on_event) (rw (bad, on_event) v)
      | inr (kind, good) ↦ rw (read, on_event) (rw (good, on_event) (by_type-Keeps kind j a v))
    ]
  ]

  on_events-Keeps :
      (es : List (List ℕ × List ℕ)) (a : Attempt) → Keeps k a → Keeps k (on_events json es a).1
  unfolding on_events
  on_events-Keeps [] a v = v
  on_events-Keeps (e ∷ es) a v = elim (Bool-cases (on_event json e a).0) [
    | inl thrown ↦ rw (thrown, on_events) (on_event-Keeps e a v)
    | inr fine ↦
        rw (fine, on_events) (on_events-Keeps es (on_event json e a).1 (on_event-Keeps e a v))
  ]

  new_attempt-Keeps : Keeps k (new_attempt k)
  new_attempt-Keeps = record { quiet = λ h. refl; numbered = refl }

  -- A body that is not that of a success is not parsed.
  read_body-Keeps :
      (x : Exchange)
      → Keeps k (read_body json x (new_attempt k)).1
        × (is_ok x.status ≡ false → read_body json x (new_attempt k) ≡ (x.exception, new_attempt k))
  unfolding read_body
  read_body-Keeps x =
      let p = feed_all x.chunks new_parser in
      let vb = on_events-Keeps p.events (new_attempt k) new_attempt-Keeps in
      let vc = on_events-Keeps (finish p).events (new_attempt k) new_attempt-Keeps in
      elim (Bool-cases (is_ok x.status)) [
        | inr bad ↦ rw bad (new_attempt-Keeps, λ h. refl)
        | inl good ↦ elim (Bool-cases (on_events json p.events (new_attempt k)).0) [
          | inl thrown ↦ rw (good, thrown) (vb, λ h. absurd (ground (arith, h)))
          | inr fine ↦ elim (Option-cases x.exception) [
            | inr (e, broke) ↦ rw (good, fine, broke) (vb, λ h. absurd (ground (arith, h)))
            | inl whole ↦ elim (Bool-cases (on_events json (finish p).events (new_attempt k)).0) [
              | inl late ↦ rw (good, fine, whole, late) (vc, λ h. absurd (ground (arith, h)))
              | inr read ↦ rw (good, fine, whole, read) (vc, λ h. absurd (ground (arith, h)))
            ]
          ]
        ]
      ]

  judge-Keeps :
      (decimal : ℕ → List ℕ) (x : Exchange) (e : Option (List ℕ)) (a : Attempt)
      → Keeps k a
      → (is_ok x.status ≡ false → a ≡ new_attempt k)
      → ((judge json decimal x (e, a)).1.result.attempts ≡ k)
        × ((judge json decimal x (e, a)).0 ≡ true → (judge json decimal x (e, a)).1.told ≡ [])
  unfolding judge
  judge-Keeps decimal x (some e) a v h = (v.numbered, λ on. v.quiet (ground arith))
  judge-Keeps decimal x none a v h = elim (Bool-cases (is_ok x.status)) [
    | inr bad ↦ rw (h bad) (ground arith, ground arith)
    | inl good ↦ (ground (arith, v.numbered), λ on. absurd (ground arith))
  ]

  -- Only an attempt that has handed out nothing is followed by another.
  try_exchange-Keeps :
      (decimal : ℕ → List ℕ) (x : Exchange)
      → ((try_exchange json decimal k x).1.result.attempts ≡ k)
        × ((try_exchange json decimal k x).0 ≡ true → (try_exchange json decimal k x).1.told ≡ [])
  try_exchange-Keeps decimal x =
      unfold try_exchange in
      judge-Keeps decimal x (read_body json x (new_attempt k)).0
        (read_body json x (new_attempt k)).1 (read_body-Keeps x).0
        (λ bad. ap (λ b. b.1) ((read_body-Keeps x).1 bad))

-- The attempt that ended the loop.
pub record Ended (json : Json) (decimal : ℕ → List ℕ) (xs : ℕ → Exchange)
    (out : Result × List (List ℕ)) : Type 0 where
  pub first : 1 ≤ out.0.attempts
  pub last : out.0.attempts ≤ max_attempts
  pub result : out.0 ≡ (try_exchange json decimal out.0.attempts (xs out.0.attempts)).1.result
  pub told : out.1 ≡ (try_exchange json decimal out.0.attempts (xs out.0.attempts)).1.told

module _ (json : Json) (decimal : ℕ → List ℕ) (xs : ℕ → Exchange) where
  attempts_from-Ended :
      (left k : ℕ)
      → 1 ≤ k
      → k + left ≡ suc max_attempts
      → 0 < left
      → Ended json decimal xs (attempts_from json decimal left k xs [])
  unfolding attempts_from
  attempts_from-Ended zero k h e lt = absurd (omega arith)
  attempts_from-Ended (suc left) k h e lt =
      let fact = try_exchange-Keeps json k decimal (xs k) in
      elim (Bool-cases ((try_exchange json decimal k (xs k)).0 && not (k == max_attempts))) [
        | inl more ↦
            rw (more, attempts_from)
              (rw (fact.1 (ground arith))
                (attempts_from-Ended left (k + 1) (omega arith) (omega arith) (ground arith)))
        | inr stop ↦
            rw (stop, attempts_from)
              (record {
                first = omega (arith, fact.0);
                last = omega (arith, fact.0);
                result = ap (λ n. (try_exchange json decimal n (xs n)).1.result) (sym fact.0);
                told = ap (λ n. (try_exchange json decimal n (xs n)).1.told) (sym fact.0);
              })
      ]

-- However the server answers and the connection breaks, a call with a valid address ends after one
-- to three attempts with the result of the last one, and the texts that were handed out are those
-- of that attempt alone: no text is handed out twice.
pub stream_message-Ended :
    (json : Json) (decimal : ℕ → List ℕ) (xs : ℕ → Exchange)
    → Ended json decimal xs (stream_message json decimal true xs)
unfolding stream_message
stream_message-Ended json decimal xs =
    attempts_from-Ended json decimal xs 3 1 (omega arith) (omega arith) (omega arith)
