-- ===== src/Tests/Client.antt =====
-- Runs of the client: an answer in two packets, with a message between them.
use asio_chat_server.Common.{
  ℕ, ◌+◌, ◌%◌, ◌≡◌, ◌≤◌, ◌*◌, ◌↔◌, refl, true, false, some, List, [], ◌∷◌, ◌++◌, arith, codes, inl,
  length, bytes_eq,
}
use asio_chat_server.Common.Int.{pos}
use asio_chat_server.Client.Replies.{
  login, Globals, write_all, ReplyPacket, s_login, s_transfer, handle_reply,
}
use asio_chat_server.Client.Replies.Publish.{waited, seen, waited-whole}
use asio_chat_server.Client.Replies.Auth.{
  cleared, login_outcome, Turn, handle_all, auth_turn, auth_loop, Logs, auth_loop-entered,
}
use asio_chat_server.Common.Find.{lacks-All}
use asio_chat_server.Client.ChatLoop.{Typing, normal, run_keys}
use asio_chat_server.Client.ChatLoop.Lines.{
  packets_for, mode_number, mode_at, tabs, forward, typed, run_keys-sends,
}
use asio_chat_server.Client.Messages.{parse_whisper_input}
use asio_chat_server.Client.Messages.Whisper.{IsWhisper, parse_whisper_input_iff}
use asio_chat_server.Client.AiLines.{Chat, AiChat}
use asio_chat_server.Client.AiLines.Loops.{ai_texts}
use asio_chat_server.Client.AiLines.End.{IsEnded}
use asio_chat_server.Client.AiLines.Answer.{
  Event, packet, message, run_events, event_text, answer-IsEnded,
}

abbrev empty_screen : Chat
empty_screen = record {
  active = true;
  bottom_is_ai = false;
  rows = [];
  pending = [];
  shown = false;
  first_line = true;
}

abbrev first_piece : AiChat
first_piece = record { text = 97 ∷ 10 ∷ 98 ∷ []; done = false; success = true; error_msg = [] }

abbrev last_piece : AiChat
last_piece = record { text = 99 ∷ []; done = true; success = true; error_msg = [] }

abbrev between_pieces : List Event
between_pieces = packet first_piece ∷ message (codes "hello") false ∷ []

answer-IsEnded_example :
    (c : Chat) × ((run_events 80 (between_pieces ++ packet last_piece ∷ []) empty_screen ≡ some c)
      × IsEnded (ai_texts []) (event_text between_pieces ++ last_piece.text) c)
answer-IsEnded_example =
    answer-IsEnded 80 between_pieces last_piece empty_screen
      (record { active = refl; nothing = refl; hidden = refl; tagged = refl; high = refl })
      (refl, tt) refl (inl (refl, inl (refl, inl (refl, inl (refl, tt)))))

abbrev no_globals : Globals
no_globals = record {
  done = λ k. false;
  success = λ k. false;
  register_message = [];
  login_message = [];
  nickname_message = [];
  delete_message = [];
  friend_message = [];
  transfer_message = [];
  my_nickname = [];
  created_room = pos 0;
  rooms = [];
  friends = [];
  pendings = [];
  my_balance = pos 0;
  retries = pos 0;
}

abbrev paid : ReplyPacket
paid = s_transfer true (codes "ok") (pos 1) (pos 900)

-- The handler runs between the polls 1 and 2.
abbrev pace : ℕ → ℕ
pace i = 3 * i

pace-grows : (i j : ℕ) → i ≤ j → pace i ≤ pace j
pace-grows i j h = omega arith

waited-whole_example :
    ((waited 50 paid no_globals pace).0 ≡ true
      → (j : ℕ) → (waited 50 paid no_globals pace).1 ≤ j
      → seen paid no_globals (pace j) ≡ write_all (handle_reply paid) no_globals)
    × (length (handle_reply paid) ≤ pace 50 → (waited 50 paid no_globals pace).0 ≡ true)
waited-whole_example = waited-whole 50 paid no_globals pace refl pace-grows

abbrev login_reply : List ReplyPacket
login_reply = s_login true (codes "ann") (codes "hi") ∷ []

-- The login that is refused at first has the reply of another behind it.
abbrev two_turns : List Turn
two_turns =
    record { before = login_reply; choice = codes "2"; during = s_login false [] (codes "no") ∷ [] }
    ∷ record { before = []; choice = codes "2"; during = login_reply }
    ∷ []

abbrev refused_login : Globals
refused_login =
    handle_all (s_login false [] (codes "no") ∷ [])
      (cleared login (handle_all login_reply no_globals))

abbrev logged_in : Globals
logged_in = handle_all login_reply (cleared login refused_login)

auth_loop-entered_example : Logs two_turns
auth_loop-entered_example =
    auth_loop-entered two_turns no_globals logged_in
      (unfold auth_loop auth_turn bytes_eq login_outcome handle_reply write_all in refl)

parse_whisper_input_iff_example :
    (parse_whisper_input (codes "/bob hi there") ≡ some (codes "bob", codes "hi there"))
    ↔ IsWhisper (codes "/bob hi there") (codes "bob") (codes "hi there")
parse_whisper_input_iff_example =
    parse_whisper_input_iff (codes "/bob hi there") (codes "bob") (codes "hi there")

abbrev start_typing : Typing
start_typing = record { mode = normal; input = []; screen = empty_screen; sent = [] }

-- "hj", an erasure, a tab, and "i".
abbrev some_keys : List ℕ
some_keys = 104 ∷ 106 ∷ 8 ∷ 9 ∷ 105 ∷ []

run_keys-sends_example :
    (run_keys (λ s. s) 80 (some_keys ++ 13 ∷ []) start_typing).1.sent
    ≡ packets_for
        (mode_at ((mode_number normal + tabs some_keys) % 4))
        (forward (typed [] some_keys))
run_keys-sends_example =
    run_keys-sends (λ s. s) 80 some_keys start_typing (lacks-All 13 some_keys refl) refl refl
      (unfold bytes_eq in refl)
