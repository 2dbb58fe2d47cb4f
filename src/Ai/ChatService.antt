-- ===== src/Ai/ChatService.antt =====
-- `AiChatService::Run` of Server/AI/AiChatService.cpp: the daily limits, the messages that are kept,
-- the call of the model, and the packets to the player. The tables of the AI chat, the clock and
-- the call are parameters. Texts are their bytes.
pub mod Run
use asio_chat_server.Common.{
  ℕ, Bool, true, false, not, Option, none, some, List, [], ◌∷◌, ◌++◌, ◌&&◌, if◌then◌else◌, bytes_eq,
  codes, is_empty, map,
}
use asio_chat_server.Common.Int.{ℤ, pos, ◌+ℤ◌, leb_ℤ, wrap_int64}
use asio_chat_server.Ai.History.{Message, truncate, build_history}
use asio_chat_server.Ai.ClaudeClient.{Result, join}

-- `AiUsage` of Server/DB/Entities/Entities.h: a player's row for one day.
pub record AiUsage : Type 0 where
  pub calls : ℤ
  pub input_tokens : ℤ
  pub output_tokens : ℤ

-- The entries that a `SaveChanges` of the service has.
pub data AiChange : Type 0 where
  add_message : Message → AiChange
  add_usage : AiUsage → AiChange
  modify_usage : AiUsage → AiUsage → AiChange

-- The tables for one player and one day; `recent` are the last `kHistoryRows` messages, the newest
-- first.
pub record ChatTables : Type 1 where
  pub State : Type 0
  pub usage : State → Option AiUsage
  pub recent : State → List Message
  pub save : List AiChange → State → Bool × State

-- The packets `S_AI_CHAT`: a part of the answer, or the end with an error text.
pub data Packet : Type 0 where
  delta : List ℕ → Packet
  done : Bool → List ℕ → Packet

pub record Limits : Type 0 where
  pub daily_calls : ℤ
  pub daily_tokens : ℤ

abbrev pub max_content_chars : ℕ
max_content_chars = 4000

abbrev pub refusal_text : List ℕ
refusal_text =
    236 ∷ 157 ∷ 180 ∷ 32 ∷ 236 ∷ 154 ∷ 148 ∷ 236 ∷ 178 ∷ 173 ∷ 236 ∷ 151 ∷ 144 ∷ 235 ∷ 138 ∷ 148
    ∷ 32 ∷ 235 ∷ 139 ∷ 181 ∷ 237 ∷ 149 ∷ 160 ∷ 32 ∷ 236 ∷ 136 ∷ 152 ∷ 32 ∷ 236 ∷ 151 ∷ 134 ∷ 236
    ∷ 138 ∷ 181 ∷ 235 ∷ 139 ∷ 136 ∷ 235 ∷ 139 ∷ 164 ∷ 46 ∷ []

abbrev pub reversed : List Message → List Message
reversed [] = []
reversed (m ∷ ms) = reversed ms ++ m ∷ []

module _ (decimal : ℤ → List ℕ) where
  abbrev pub limit_text : List ℕ → ℤ → List ℕ
  limit_text what n = what ++ (decimal n ++ codes ")")

  -- The text of the refusal, if a limit is reached.
  unfoldable pub check_limits : Limits → Option AiUsage → Option (List ℕ)
  check_limits l none = none
  check_limits l (some u) =
      if leb_ℤ l.daily_calls u.calls
      then some (limit_text (codes "Daily AI call limit reached (") l.daily_calls)
      else if leb_ℤ l.daily_tokens (wrap_int64 (u.input_tokens +ℤ u.output_tokens))
      then some (limit_text (codes "Daily AI token limit reached (") l.daily_tokens)
      else none

-- The row of the day after a call.
unfoldable pub count_usage : Result → Option AiUsage → AiChange
count_usage r none = add_usage (record {
  calls = pos 1;
  input_tokens = pos r.input_tokens;
  output_tokens = pos r.output_tokens;
})
count_usage r (some u) = modify_usage u (record {
  calls = wrap_int64 (u.calls +ℤ pos 1);
  input_tokens = wrap_int64 (u.input_tokens +ℤ pos r.input_tokens);
  output_tokens = wrap_int64 (u.output_tokens +ℤ pos r.output_tokens);
})

abbrev pub question : List ℕ → Message
question text = record { role = codes "user"; content = truncate text max_content_chars }

abbrev pub kept_answer : List ℕ → List AiChange
kept_answer text =
    if is_empty text
    then []
    else add_message
        (record { role = codes "assistant"; content = truncate text max_content_chars })
      ∷ []

-- What the player is told: a refusal of the model without text is put into words.
abbrev pub told_texts : Result → List (List ℕ) → List (List ℕ)
told_texts r told =
    if bytes_eq r.stop_reason (codes "refusal") && is_empty (join told)
    then told ++ refusal_text ∷ []
    else told

module _ (tables : ChatTables) (stream : List Message → Result × List (List ℕ)) where
  -- Steps 3 and 4: the call, and what is kept of it.
  unfoldable pub ask_model : List Message → tables.State → List Packet × tables.State
  unfolding count_usage
  ask_model history st =
      let (r, told) = stream history in
      let texts = told_texts r told in
      let changes = kept_answer (join texts) ++ count_usage r (tables.usage st) ∷ [] in
      if r.success
      then (map delta texts ++ done true [] ∷ [], (tables.save changes st).1)
      else (map delta told ++ done false r.error_msg ∷ [], st)

  -- Step 2: the messages that are sent along.
  unfoldable pub with_history : tables.State → List Packet × tables.State
  unfolding ask_model
  with_history st =
      let history = build_history (reversed (tables.recent st)) in
      if is_empty history
      then (done false (codes "Nothing to send") ∷ [], st)
      else ask_model history st

  unfoldable pub chat_run :
      (ℤ → List ℕ) → Bool → Limits → List ℕ → tables.State → List Packet × tables.State
  unfolding check_limits with_history
  chat_run decimal enabled limits text st =
      let (saved, kept) = tables.save (add_message (question text) ∷ []) st in
      if not enabled
      then (done false (codes "AI chat is disabled on this server (no API key)") ∷ [], st)
      else (elim (check_limits decimal limits (tables.usage st)) [
        | some refusal ↦ (done false refusal ∷ [], st)
        | none ↦
            if saved then with_history kept else (done false (codes "Database error") ∷ [], kept)
      ])
