-- ===== src/Tests/Rooms.antt =====
-- Runs of the rooms and of the session table of Server/Network.
use asio_chat_server.Common.{◌≡◌, refl, true, false, some, [], ◌∷◌, arith, contains}
use asio_chat_server.Network.Reply.{s_enter_room}
use asio_chat_server.Network.World.{World, set_session, set_room}
use asio_chat_server.Network.Room.{run_job}
use asio_chat_server.Network.Room.Invariant.{RoomsOk}
use asio_chat_server.Network.RoomHandlers.{handle_enter_room}
use asio_chat_server.Network.Events.{
  creates, enters, runs, chats, deletes_account, disconnects, run,
}
use asio_chat_server.Network.Events.Invariant.{run-RoomsOk}
use asio_chat_server.Network.Events.Membership.{reenter_kills_room}
use asio_chat_server.Tests.Fixtures.{memory, toy_bcrypt, Db, session_of, no_room, lobby, plain_text}

lobby-RoomsOk : RoomsOk lobby
lobby-RoomsOk = record {
  listed_alive = λ r lt h. absurd (ground (arith, h));
  alive_listed = λ r p lt h. absurd (omega arith);
  dead_empty = λ r h. refl;
  fresh = λ r h. absurd (ground (arith, h));
}

run-RoomsOk_example : RoomsOk (
    run memory toy_bcrypt plain_text
      (creates 11 (65 ∷ [])
        ∷ enters 11 1
        ∷ runs 1
        ∷ chats 11 (66 ∷ [])
        ∷ deletes_account (λ st. st) 12
        ∷ disconnects 11
        ∷ runs 1
        ∷ runs 1
        ∷ [])
      lobby)
run-RoomsOk_example =
    run-RoomsOk memory toy_bcrypt plain_text
      (creates 11 (65 ∷ [])
        ∷ enters 11 1
        ∷ runs 1
        ∷ chats 11 (66 ∷ [])
        ∷ deletes_account (λ st. st) 12
        ∷ disconnects 11
        ∷ runs 1
        ∷ runs 1
        ∷ [])
      lobby lobby-RoomsOk (omega arith) (omega arith)

-- Room 1 is there, with nobody in it.
abbrev one_room : World Db
one_room = record lobby { listed = 1 ∷ []; next_room = 2 }

-- Ann is in room 1, alone.
abbrev ann_inside : World Db
ann_inside =
    set_room 1 (record no_room { members = (1, 11) ∷ [] })
      (set_session 11 (record (session_of 11) { current_room = some 1 }) one_room)

reenter_kills_room_example :
    let w' = run_job 1 (run_job 1 (handle_enter_room plain_text 11 1 ann_inside)) in
    (w'.sent ≡ (11, s_enter_room true 1) ∷ [])
    × ((w'.sessions 11).current_room ≡ some 1)
    × ((w'.rooms 1).dead ≡ true)
    × ((w'.rooms 1).members ≡ [])
    × (contains 1 w'.listed ≡ false)
reenter_kills_room_example = reenter_kills_room plain_text ann_inside 11 1 refl refl refl refl refl
