-- ===== src/Ai/ChatService/Run.antt =====
-- How a run of `AiChatService::Run` (Server/AI/AiChatService.cpp) can end.
use asio_chat_server.Common.{
  ℕ, ◌≡◌, ◌≢◌, ◌⊎◌, Bool, true, false, Option, none, some, List, [], ◌∷◌, ◌++◌, map,
}
use asio_chat_server.Common.Int.{◌+ℤ◌, leb_ℤ, wrap_int64}
use asio_chat_server.Ai.History.{Message, build_history}
use asio_chat_server.Ai.History.Roles.{IsHistory}
use asio_chat_server.Ai.ClaudeClient.{Result, join}
use asio_chat_server.Ai.ChatService.{
  AiUsage, add_message, ChatTables, Packet, delta, done, Limits, reversed, count_usage, question,
  kept_answer, told_texts,
}

-- The day's row, if there is one, is below both limits.
abbrev pub Within : Limits → Option AiUsage → Type 0
Within l none = Unit
Within l (some u) =
    (leb_ℤ l.daily_calls u.calls ≡ false)
    × (leb_ℤ l.daily_tokens (wrap_int64 (u.input_tokens +ℤ u.output_tokens)) ≡ false)

-- The day's row has reached one of them.
abbrev pub Reached : Limits → Option AiUsage → Type 0
Reached l none = ⊥
Reached l (some u) =
    (leb_ℤ l.daily_calls u.calls ≡ true)
    ⊎ (leb_ℤ l.daily_tokens (wrap_int64 (u.input_tokens +ℤ u.output_tokens)) ≡ true)

module _ (tables : ChatTables) (stream : List Message → Result × List (List ℕ)) (limits : Limits)
    (text : List ℕ) (st : tables.State) where
  -- The state after the question was kept, and the messages that are sent along.
  abbrev pub asked : tables.State
  asked = (tables.save (add_message (question text) ∷ []) st).1

  abbrev pub history : List Message
  history = build_history (reversed (tables.recent asked))

  -- The model was asked, within the limits, about a history that starts with the user.
  pub record Asked : Type 0 where
    pub within : Within limits (tables.usage st)
    pub question_kept : (tables.save (add_message (question text) ∷ []) st).0 ≡ true
    pub some_history : history ≢ []
    pub well_formed : IsHistory (reversed (tables.recent asked)) history

  -- Why the answer of the model is not used: the service is off or a limit is reached; or the
  -- question could not be kept or there is no history, behind the attempt to keep the question.
  abbrev pub Refused : Bool → tables.State → Type 0
  Refused enabled after =
      ((after ≡ st) × ((enabled ≡ false) ⊎ Reached limits (tables.usage st)))
      ⊎ ((after ≡ asked)
          × Within limits (tables.usage st)
          × (((tables.save (add_message (question text) ∷ []) st).0 ≡ false) ⊎ (history ≡ [])))

  -- Refused before the model was asked; asked in vain; or answered.
  abbrev pub Runs : Bool → List Packet × tables.State → Type 0
  Runs enabled (sent, after) =
      ((msg : List ℕ) × (sent ≡ done false msg ∷ []) × Refused enabled after)
      ⊎ (Asked
          × (enabled ≡ true)
          × ((stream history).0.success ≡ false)
          × (sent ≡ map delta (stream history).1 ++ done false (stream history).0.error_msg ∷ [])
          × (after ≡ asked))
      ⊎ (Asked
          × (enabled ≡ true)
          × ((stream history).0.success ≡ true)
          × (sent
              ≡ map delta (told_texts (stream history).0 (stream history).1) ++ done true [] ∷ [])
          × (after
              ≡ (tables.save
                  (kept_answer (join (told_texts (stream history).0 (stream history).1))
                    ++ count_usage (stream history).0 (tables.usage asked) ∷ [])
                  asked).1))
