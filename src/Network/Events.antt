-- ===== src/Network/Events.antt =====
-- A history of the server: the packets that Server/Network/ClientPacketHandler.cpp handles, the ends
-- of the coroutines that ask the model, the disconnections of GameSession.cpp, and the turns of the
-- workers, each of which runs the oldest job of a room.
pub mod Same
pub mod Counter
pub mod Invariant
pub mod Membership
use asio_chat_server.Common.{ℕ, Bool, Option, List, [], ◌∷◌}
use asio_chat_server.Common.Int.{ℤ}
use asio_chat_server.Network.World.{World}
use asio_chat_server.Network.Room.{run_job}
use asio_chat_server.Network.RoomHandlers.{
  Encoding, handle_create_room, handle_get_room_list, handle_exit_room, handle_enter_room,
  handle_chat, handle_shout, handle_whisper, on_disconnected,
}
use asio_chat_server.Security.PasswordHasher.{Bcrypt}
use asio_chat_server.Accounts.Store.{Store}
use asio_chat_server.Accounts.Auth.{handle_register, handle_login}
use asio_chat_server.Accounts.Profile.{
  handle_update_nickname, handle_delete_account, handle_ai_chat, ai_chat_done,
}
use asio_chat_server.Accounts.Friends.{
  handle_request_friend, handle_accept_friend, handle_reject_friend, handle_remove_friend,
  handle_get_pending_friends, handle_get_friend_list,
}
use asio_chat_server.Accounts.Transfer.{TransferLockMode, handle_transfer, handle_get_balance}

-- `D` are the states of the database; an event that saves says what other connections have
-- committed before, and one that hashes has the salt that is drawn.
pub data Event (D : Type 0) : Type 0 where
  creates : ℕ → List ℕ → Event D
  lists : ℕ → Event D
  exits : ℕ → Event D
  enters : ℕ → ℕ → Event D
  chats : ℕ → List ℕ → Event D
  shouts : ℕ → List ℕ → Event D
  whispers : ℕ → List ℕ → List ℕ → Event D
  registers : Option (List ℕ) → (D → D) → ℕ → List ℕ → List ℕ → List ℕ → Event D
  logs_in : Option (List ℕ) → (D → D) → ℕ → List ℕ → List ℕ → Event D
  renames : (D → D) → ℕ → List ℕ → Event D
  deletes_account : (D → D) → ℕ → Event D
  requests_friend : (D → D) → ℕ → List ℕ → Event D
  accepts_friend : (D → D) → ℕ → List ℕ → Event D
  rejects_friend : (D → D) → ℕ → List ℕ → Event D
  removes_friend : (D → D) → ℕ → List ℕ → Event D
  gets_pending_friends : ℕ → Event D
  gets_friend_list : ℕ → Event D
  gets_balance : ℕ → Event D
  transfers : TransferLockMode → (ℕ → D → D) → ℕ → List ℕ → ℤ → Event D
  asks_ai : Bool → ℕ → List ℕ → Event D
  ends_ai : Bool → ℕ → Event D
  disconnects : ℕ → Event D
  runs : ℕ → Event D

module _ (store : Store) (bcrypt : Bcrypt) (enc : Encoding) where
  unfoldable pub step : Event store.State → World store.State → World store.State
  step (creates sid name) w = handle_create_room enc sid name w
  step (lists sid) w = handle_get_room_list enc sid w
  step (exits sid) w = handle_exit_room enc sid w
  step (enters sid rid) w = handle_enter_room enc sid rid w
  step (chats sid msg) w = handle_chat enc sid msg w
  step (shouts sid msg) w = handle_shout enc sid msg w
  step (whispers sid target msg) w = handle_whisper enc sid target msg w
  step (registers salt others sid name email password) w =
      handle_register store bcrypt salt others sid name email password w
  step (logs_in salt others sid email password) w =
      handle_login store bcrypt enc salt others sid email password w
  step (renames others sid nickname) w = handle_update_nickname store enc others sid nickname w
  step (deletes_account others sid) w = handle_delete_account store others sid w
  step (requests_friend others sid email) w = handle_request_friend store others sid email w
  step (accepts_friend others sid email) w = handle_accept_friend store others sid email w
  step (rejects_friend others sid email) w = handle_reject_friend store others sid email w
  step (removes_friend others sid email) w = handle_remove_friend store others sid email w
  step (gets_pending_friends sid) w = handle_get_pending_friends store sid w
  step (gets_friend_list sid) w = handle_get_friend_list store sid w
  step (gets_balance sid) w = handle_get_balance store sid w
  step (transfers mode others sid target amount) w =
      handle_transfer store enc mode others sid target amount w
  step (asks_ai enabled sid message) w = (handle_ai_chat enabled sid message w).1
  step (ends_ai thrown sid) w = ai_chat_done thrown sid w
  step (disconnects sid) w = on_disconnected sid w
  step (runs rid) w = run_job rid w

  unfoldable pub run : List (Event store.State) → World store.State → World store.State
  unfolding step
  run [] w = w
  run (e ∷ es) w = run es (step e w)
