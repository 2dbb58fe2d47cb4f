-- ===== src/Network/Events/Counter.antt =====
-- The room counter of Server/Network/RoomManager.cpp through the events.
use asio_chat_server.Common.{
  ℕ, ◌+◌, ◌^◌, ◌≤◌, ◌<◌, ◌≡◌, refl, ap, ◌∙◌, Option, none, some, List, [], ◌∷◌, arith, Dict,
}
use asio_chat_server.Network.Reply.{Reply, s_shout}
use asio_chat_server.Network.World.{
  World, Job, set_room, set_current_room, push_job, leave, enter, broadcast,
}
use asio_chat_server.Network.Room.{
  create_room, run_job, broadcast_all, send_members, run_jobs_of, execute, room_broadcast,
  room_enter, room_leave, push_all,
}
use asio_chat_server.Network.RoomHandlers.{
  Encoding, push_leave, handle_create_room, handle_get_room_list, handle_exit_room,
  handle_enter_room, handle_chat, handle_shout, handle_whisper, whisper_to, on_disconnected,
}
use asio_chat_server.Security.PasswordHasher.{Bcrypt}
use asio_chat_server.Accounts.Store.{Store}
use asio_chat_server.Accounts.Profile.{handle_delete_account}
use asio_chat_server.Network.Events.Same.{
  login-same, register-same, nickname-same, request-same, accept-same, reject-same, remove-same,
  pending-same, friend_list-same, balance-same, transfer-same, ask_ai-same, end_ai-same,
}
use asio_chat_server.Network.Events.{
  Event, creates, lists, exits, enters, chats, shouts, whispers, registers, logs_in, renames,
  deletes_account, requests_friend, accepts_friend, rejects_friend, removes_friend,
  gets_pending_friends, gets_friend_list, gets_balance, transfers, asks_ai, ends_ai, disconnects,
  runs, step,
}

module _ {D : Type 0} where
  -- The room counter moves at the creation of a room only.
  send_members-next_room :
      (ms : Dict ℕ) (reply : Reply) (w : World D)
      → (send_members ms reply w).next_room ≡ w.next_room
  unfolding send_members
  send_members-next_room [] reply w = refl
  send_members-next_room ((p, sid) ∷ ms) reply w = send_members-next_room ms reply _ ∙ ground arith

  run_jobs_of-next_room :
      (rid : ℕ) (jobs : List Job) (w : World D) → (run_jobs_of rid jobs w).next_room ≡ w.next_room
  unfolding run_jobs_of execute room_broadcast room_enter room_leave
  run_jobs_of-next_room rid [] w = refl
  run_jobs_of-next_room rid (enter sid ∷ jobs) w = ground arith
  run_jobs_of-next_room rid (leave sid ∷ jobs) w = ground arith
  run_jobs_of-next_room rid (broadcast reply ∷ jobs) w =
      let left = set_room rid (record (w.rooms rid) { jobs = jobs }) w in
      send_members-next_room (left.rooms rid).members reply left

  push_all-next_room :
      (rids : List ℕ) (job : Job) (w : World D) → (push_all rids job w).next_room ≡ w.next_room
  unfolding push_all
  push_all-next_room [] job w = refl
  push_all-next_room (rid ∷ rids) job w = push_all-next_room rids job _

  broadcast_all-next_room :
      (reply : Reply) (w : World D) → (broadcast_all reply w).next_room ≡ w.next_room
  unfolding broadcast_all
  broadcast_all-next_room reply w = push_all-next_room w.listed (broadcast reply) w

  push_leave-next_room :
      (sid : ℕ) (r : Option ℕ) (w : World D) → (push_leave sid r w).next_room ≡ w.next_room
  unfolding push_leave push_job
  push_leave-next_room sid none w = refl
  push_leave-next_room sid (some rid) w = refl

-- An account packet keeps the counter.
same-next_room : {n m : ℕ} → m ≡ n → (n ≤ m) × (m ≤ n + 1)
same-next_room e = (omega arith, omega arith)

module _ (store : Store) (bcrypt : Bcrypt) where
  pub step-next_room :
      (enc : Encoding) (e : Event store.State) (w : World store.State)
      → w.next_room + 1 < 2 ^ 32
      → (w.next_room ≤ (step store bcrypt enc e w).next_room)
        × ((step store bcrypt enc e w).next_room ≤ w.next_room + 1)
  unfolding step handle_create_room create_room
  step-next_room enc (creates sid name) w small = ground arith
  step-next_room enc (lists sid) w small = unfold handle_get_room_list in ground arith
  step-next_room enc (exits sid) w small =
      unfold handle_exit_room set_current_room in
      ground (arith, push_leave-next_room sid (w.sessions sid).current_room w)
  step-next_room enc (enters sid rid) w small =
      unfold handle_enter_room set_current_room push_job in
      ground (arith, push_leave-next_room sid (w.sessions sid).current_room w)
  step-next_room enc (chats sid msg) w small = unfold handle_chat push_job in ground arith
  step-next_room enc (shouts sid msg) w small =
      unfold handle_shout in
      omega (arith, broadcast_all-next_room (s_shout (enc.to_utf8 (w.sessions sid).nickname) msg) w)
  step-next_room enc (whispers sid target msg) w small =
      unfold handle_whisper whisper_to in ground arith
  step-next_room enc (registers salt others sid name email password) w small =
      same-next_room
        (ap (λ x. x.1.1) (register-same store w bcrypt salt others sid name email password))
  step-next_room enc (logs_in salt others sid email password) w small =
      same-next_room
        (ap (λ x. x.1.1) (login-same store w bcrypt enc salt others sid email password))
  step-next_room enc (renames others sid nickname) w small =
      same-next_room (ap (λ x. x.1.1) (nickname-same store w enc others sid nickname))
  step-next_room enc (deletes_account others sid) w small =
      unfold handle_delete_account set_current_room push_leave push_job in ground arith
  step-next_room enc (requests_friend others sid email) w small =
      same-next_room (ap (λ x. x.1.1) (request-same store w others sid email))
  step-next_room enc (accepts_friend others sid email) w small =
      same-next_room (ap (λ x. x.1.1) (accept-same store w others sid email))
  step-next_room enc (rejects_friend others sid email) w small =
      same-next_room (ap (λ x. x.1.1) (reject-same store w others sid email))
  step-next_room enc (removes_friend others sid email) w small =
      same-next_room (ap (λ x. x.1.1) (remove-same store w others sid email))
  step-next_room enc (gets_pending_friends sid) w small =
      same-next_room (ap (λ x. x.1.1) (pending-same store w sid))
  step-next_room enc (gets_friend_list sid) w small =
      same-next_room (ap (λ x. x.1.1) (friend_list-same store w sid))
  step-next_room enc (gets_balance sid) w small =
      same-next_room (ap (λ x. x.1.1) (balance-same store w sid))
  step-next_room enc (transfers mode others sid target amount) w small =
      same-next_room (ap (λ x. x.1.1) (transfer-same store w enc mode others sid target amount))
  step-next_room enc (asks_ai enabled sid message) w small =
      same-next_room (ap (λ x. x.1.1) (ask_ai-same store w enabled sid message))
  step-next_room enc (ends_ai thrown sid) w small =
      same-next_room (ap (λ x. x.1.1) (end_ai-same store w thrown sid))
  step-next_room enc (disconnects sid) w small =
      unfold on_disconnected in
      ground (arith, push_leave-next_room sid (w.sessions sid).current_room w)
  step-next_room enc (runs rid) w small =
      unfold run_job in ground (arith, run_jobs_of-next_room rid (w.rooms rid).jobs w)
