-- ===== src/Tests/Assistant.antt =====
-- Runs of the AI chat: a stream of events in parts, a history, the retries of a call, and a
-- question that is answered.
use asio_chat_server.Common.{
  ℕ, ◌≡◌, refl, true, false, Option, none, some, List, [], ◌∷◌, codes, if◌then◌else◌, ◌==◌,
}
use asio_chat_server.Common.Int.{pos}
use asio_chat_server.Ai.History.{Message, truncate, build_history}
use asio_chat_server.Ai.History.Cut.{text_of, fitting, truncate-fitting}
use asio_chat_server.Ai.History.Roles.{IsHistory, build_history-IsHistory}
use asio_chat_server.Ai.ClaudeClient.{Json, Exchange, Result, stream_message}
use asio_chat_server.Ai.ClaudeClient.Once.{Ended, stream_message-Ended}
use asio_chat_server.Ai.ChatService.{
  AiUsage, AiChange, add_message, add_usage, modify_usage, ChatTables, Limits,
}

abbrev first_part : List ℕ
first_part = codes "event: ping\r"

abbrev second_part : List ℕ
second_part = codes "\ndata: 1\n\ndata"

abbrev two_events : List (List ℕ × List ℕ)
two_events = (codes "a", codes "x") ∷ (codes "b", []) ∷ []

-- A letter, then the two bytes of another: only the first fits into two bytes.
abbrev two_chars : List (List ℕ)
two_chars = (97 ∷ []) ∷ (195 ∷ 169 ∷ []) ∷ []

truncate-fitting_example : truncate (text_of two_chars) 2 ≡ text_of (fitting two_chars 2)
truncate-fitting_example = truncate-fitting two_chars 2 ((refl, tt), ((refl, (refl, tt)), tt))

abbrev said : List ℕ → List ℕ → Message
said who what = record { role = who; content = what }

abbrev some_rows : List Message
some_rows =
    said (codes "assistant") (codes "hi")
    ∷ said (codes "user") (codes "a")
    ∷ said (codes "user") (codes "b")
    ∷ said (codes "assistant") (codes "c")
    ∷ []

build_history-IsHistory_example : IsHistory some_rows (build_history some_rows)
build_history-IsHistory_example = build_history-IsHistory some_rows

-- A JSON library that reads every text as an event of its default type.
abbrev plain_json : Json
plain_json = record {
  Value = List ℕ;
  what = codes "parse error";
  parse = λ text. some text;
  has = λ path v. false;
  text_or = λ path default v. some default;
  number_or = λ path default v. some default;
}

-- The first attempt finds the service overloaded, the second is answered.
abbrev busy_once : ℕ → Exchange
busy_once k = if k == 1 then record { status = 529; chunks = []; exception = none } else record {
  status = 200;
  chunks = codes "event: message_stop\ndata: {}\n\n" ∷ [];
  exception = none;
}

stream_message-Ended_example :
    Ended plain_json
      (λ n. codes "529")
      busy_once
      (stream_message plain_json (λ n. codes "529") true busy_once)
stream_message-Ended_example = stream_message-Ended plain_json (λ n. codes "529") busy_once

-- Tables that keep the last day's row and the messages.
abbrev KeptState : Type 0
KeptState = Option AiUsage × List Message

abbrev keep : AiChange → KeptState → KeptState
keep (add_message m) (u, ms) = (u, m ∷ ms)
keep (add_usage v) (u, ms) = (some v, ms)
keep (modify_usage old v) (u, ms) = (some v, ms)

abbrev keep_all : List AiChange → KeptState → KeptState
keep_all [] st = st
keep_all (c ∷ cs) st = keep_all cs (keep c st)

abbrev kept_tables : ChatTables
kept_tables = record {
  State = KeptState;
  usage = λ st. st.0;
  recent = λ st. st.1;
  save = λ cs st. (true, keep_all cs st);
}

abbrev answers : List Message → Result × List (List ℕ)
answers history = (
  record {
    success = true;
    http_status = 200;
    error_msg = [];
    stop_reason = codes "end_turn";
    input_tokens = 3;
    output_tokens = 5;
    attempts = 1;
  },
  codes "hello" ∷ [],
)

abbrev some_limits : Limits
some_limits = record { daily_calls = pos 2; daily_tokens = pos 100 }

abbrev no_rows : KeptState
no_rows = (none, [])
