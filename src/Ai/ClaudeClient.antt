-- ===== src/Ai/ClaudeClient.antt =====
-- `Claude::StreamMessage` of Server/AI/ClaudeClient.cpp: the calls of the model, with retries. The
-- JSON library, the decimal form of a status and what the HTTP exchanges bring are parameters.
pub mod Once
use asio_chat_server.Common.{
  ℕ, zero, suc, ◌+◌, Bool, true, false, not, Option, none, some, List, [], ◌∷◌, ◌++◌, ◌==◌, ◌&&◌,
  ◌||◌, if◌then◌else◌, leb, ltb, bytes_eq, codes, is_empty,
}
use asio_chat_server.Ai.SseParser.{SseParser, new_parser, feed_all, finish}

abbrev pub max_attempts : ℕ
max_attempts = 3

-- The JSON library: `has` is a chain of `contains`, and `text_or` and `number_or` are `value` at the
-- end of a path of keys, with the default; `none` is an exception, and `what` its text.
pub record Json : Type 1 where
  pub Value : Type 0
  pub what : List ℕ
  pub parse : List ℕ → Option Value
  pub has : List (List ℕ) → Value → Bool
  pub text_or : List (List ℕ) → List ℕ → Value → Option (List ℕ)
  pub number_or : List (List ℕ) → ℕ → Value → Option ℕ

-- What an exchange over HTTP brings: the status (0 if none came), the parts of the body, and the
-- text of the exception that ended it, if one did.
pub record Exchange : Type 0 where
  pub status : ℕ
  pub chunks : List (List ℕ)
  pub exception : Option (List ℕ)

-- The parts of a body, one after the other.
abbrev pub join : List (List ℕ) → List ℕ
join [] = []
join (c ∷ cs) = c ++ join cs

pub record Result : Type 0 where
  pub success : Bool
  pub http_status : ℕ
  pub error_msg : List ℕ
  pub stop_reason : List ℕ
  pub input_tokens : ℕ
  pub output_tokens : ℕ
  pub attempts : ℕ

-- The variables of an attempt; `told` are the calls of `onText`, the oldest first.
pub record Attempt : Type 0 where
  pub result : Result
  pub stream_error : Bool
  pub text_started : Bool
  pub told : List (List ℕ)

abbrev pub new_attempt : ℕ → Attempt
new_attempt k = record {
  result = record {
    success = false;
    http_status = 0;
    error_msg = [];
    stop_reason = [];
    input_tokens = 0;
    output_tokens = 0;
    attempts = k;
  };
  stream_error = false;
  text_started = false;
  told = [];
}

abbrev pub set_result : Result → Attempt → Attempt
set_result r a = record a { result = r }

abbrev pub key : List ℕ → List (List ℕ)
key k = k ∷ []

-- The variables after a part of the callback, with the flag whether it ended by an exception.
abbrev pub Tried : Type 0
Tried = Bool × Attempt

-- `status >= 200 && status < 300`
abbrev pub is_ok : ℕ → Bool
is_ok status = leb 200 status && ltb status 300

module _ (json : Json) where
  abbrev pub on_start : json.Value → Attempt → Tried
  on_start j a =
      if json.has (codes "message" ∷ codes "usage" ∷ []) j
      then (elim (json.number_or (codes "message" ∷ codes "usage" ∷ codes "input_tokens" ∷ []) 0
          j) [
            | none ↦ (true, a)
            | some n ↦ (false, set_result (record a.result { input_tokens = n }) a)
          ])
      else (false, a)

  abbrev pub on_text : json.Value → Attempt → Tried
  on_text j a = elim (json.text_or (codes "delta" ∷ codes "text" ∷ []) [] j) [
    | none ↦ (true, a)
    | some text ↦ (false, record a { told = a.told ++ text ∷ [] })
  ]

  abbrev pub on_delta : json.Value → Attempt → Tried
  on_delta j a = elim (json.text_or (codes "delta" ∷ codes "type" ∷ []) [] j) [
    | none ↦ (true, a)
    | some kind ↦
        if bytes_eq kind (codes "text_delta")
        then on_text j (record a { text_started = true })
        else (false, a)
  ]

  abbrev pub on_usage : json.Value → Attempt → Tried
  on_usage j a =
      if json.has (key (codes "usage")) j
      then (elim (json.number_or (codes "usage" ∷ codes "output_tokens" ∷ []) 0 j) [
        | none ↦ (true, a)
        | some n ↦ (false, set_result (record a.result { output_tokens = n }) a)
      ])
      else (false, a)

  abbrev pub on_stop : json.Value → Attempt → Tried
  on_stop j a =
      if json.has (key (codes "delta")) j
      then (elim (json.text_or (codes "delta" ∷ codes "stop_reason" ∷ []) [] j) [
        | none ↦ (true, a)
        | some reason ↦ on_usage j (set_result (record a.result { stop_reason = reason }) a)
      ])
      else on_usage j a

  abbrev pub on_error : json.Value → Attempt → Tried
  on_error j a =
      if json.has (key (codes "error")) j
      then (elim (json.text_or (codes "error" ∷ codes "message" ∷ []) (codes "stream error") j) [
        | none ↦ (true, record a { stream_error = true })
        | some msg ↦
            (false, record a { stream_error = true; result = record a.result { error_msg = msg } })
      ])
      else (
        false,
        record a {
          stream_error = true;
          result = record a.result { error_msg = codes "stream error" };
        },
      )

  unfoldable pub by_type : List ℕ → json.Value → Attempt → Tried
  by_type kind j a =
      if bytes_eq kind (codes "message_start")
      then on_start j a
      else if bytes_eq kind (codes "content_block_delta")
      then on_delta j a
      else if bytes_eq kind (codes "message_delta")
      then on_stop j a
      else if bytes_eq kind (codes "error")
      then on_error j a
      else (false, a)

  -- The callback of the event stream.
  unfoldable pub on_event : List ℕ × List ℕ → Attempt → Tried
  unfolding by_type
  on_event (name, text) a = elim (json.parse text) [
    | none ↦ (false, a)
    | some j ↦ elim (json.text_or (key (codes "type")) name j) [
      | none ↦ (true, a)
      | some kind ↦ by_type kind j a
    ]
  ]

  -- The events in order, up to the first exception.
  unfoldable pub on_events : List (List ℕ × List ℕ) → Attempt → Tried
  unfolding on_event
  on_events [] a = (false, a)
  on_events (e ∷ es) a =
      let (thrown, b) = on_event e a in elim thrown [ true ↦ (true, b) | false ↦ on_events es b ]

  -- `ExtractErrorMessage`
  unfoldable pub extract_error_message : (ℕ → List ℕ) → List (List ℕ) → ℕ → List ℕ
  extract_error_message decimal body status =
      let plain = codes "HTTP " ++ decimal status in
      elim (json.parse (join body)) [
        | none ↦ plain
        | some j ↦
            if json.has (codes "error" ∷ codes "message" ∷ []) j
            then (elim (json.text_or (codes "error" ∷ codes "message" ∷ []) [] j) [
              | none ↦ plain
              | some msg ↦ plain ++ (codes ": " ++ msg)
            ])
            else plain
      ]

  -- The body of an attempt up to the handling of an exception: what the parser is fed, and the
  -- exception, of the callback or of the connection, if there was one.
  unfoldable pub read_body : Exchange → Attempt → Option (List ℕ) × Attempt
  unfolding on_events
  read_body x a =
      let p = feed_all x.chunks new_parser in
      let (thrown, b) = on_events p.events a in
      let (thrown_late, c) = on_events (finish p).events a in
      if is_ok x.status
      then (if thrown then (some json.what, b) else (elim x.exception [
        | some e ↦ (some e, b)
        | none ↦ if thrown_late then (some json.what, c) else (none, c)
      ]))
      else (x.exception, a)

  -- The rest of an attempt: whether the loop goes on, were this not the last attempt.
  unfoldable pub judge : (ℕ → List ℕ) → Exchange → Option (List ℕ) × Attempt → Bool × Attempt
  unfolding extract_error_message
  judge decimal x (some e, a) =
      (not a.text_started, set_result (record a.result { error_msg = codes "network: " ++ e }) a)
  judge decimal x (none, a) =
      let r = record a.result { http_status = x.status } in
      let refused = record r { error_msg = extract_error_message decimal x.chunks x.status } in
      if x.status == 429 || leb 500 x.status
      then (true, set_result refused a)
      else if not (is_ok x.status)
      then (false, set_result refused a)
      else if a.stream_error
      then (false, set_result r a)
      else (false, set_result (record r { success = true }) a)

  unfoldable pub try_exchange : (ℕ → List ℕ) → ℕ → Exchange → Bool × Attempt
  unfolding read_body judge
  try_exchange decimal k x = judge decimal x (read_body x (new_attempt k))

  -- The attempts from number `k` on, at most `left` of them, with the texts told so far.
  unfoldable pub attempts_from :
      (ℕ → List ℕ) → ℕ → ℕ → (ℕ → Exchange) → List (List ℕ) → Result × List (List ℕ)
  unfolding try_exchange
  attempts_from decimal zero k xs told = ((new_attempt k).result, told)
  attempts_from decimal (suc left) k xs told =
      let (again, a) = try_exchange decimal k (xs k) in
      let rest = attempts_from decimal left (k + 1) xs (told ++ a.told) in
      if again && not (k == max_attempts) then rest else (a.result, told ++ a.told)

  -- `StreamMessage`, with what each attempt brings, and all calls of `onText`.
  unfoldable pub stream_message : (ℕ → List ℕ) → Bool → (ℕ → Exchange) → Result × List (List ℕ)
  unfolding attempts_from
  stream_message decimal url_valid xs =
      if url_valid
      then attempts_from decimal max_attempts 1 xs []
      else (record (new_attempt 0).result { error_msg = codes "invalid ANTHROPIC_BASE_URL" }, [])
