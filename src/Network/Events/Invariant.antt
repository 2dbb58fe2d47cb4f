-- ===== src/Network/Events/Invariant.antt =====
-- The rooms stay in order through every history of Server/Network.
use asio_chat_server.Common.{
  ℕ, ◌+◌, ◌^◌, ◌<◌, ◌≡◌, refl, ap, if_both, Option, none, some, List, [], ◌∷◌, arith, length,
  Option-cases, inl, inr, ◌==◌, Bool-cases,
}
use asio_chat_server.Network.World.{World, set_current_room, leave, enter}
use asio_chat_server.Network.Room.{find_room}
use asio_chat_server.Network.Room.Invariant.{
  RoomsOk, RoomsOk-sessions, send-RoomsOk, push_job-RoomsOk, create_room-RoomsOk, run_job-RoomsOk,
  broadcast_all-RoomsOk,
}
use asio_chat_server.Network.SessionManager.{get_session}
use asio_chat_server.Network.RoomHandlers.{
  Encoding, push_leave, handle_create_room, handle_get_room_list, handle_exit_room,
  handle_enter_room, handle_chat, handle_shout, handle_whisper, whisper_to, on_disconnected,
}
use asio_chat_server.Security.PasswordHasher.{Bcrypt}
use asio_chat_server.Accounts.Store.{Store, delete_user, is_saved, save}
use asio_chat_server.Accounts.Prelude.{begin, find_me, ◌>>=◌, Result-cases}
use asio_chat_server.Accounts.Profile.{handle_delete_account}
use asio_chat_server.Network.Events.Same.{
  rooms_of, login-same, register-same, nickname-same, request-same, accept-same, reject-same,
  remove-same, pending-same, friend_list-same, balance-same, transfer-same, ask_ai-same,
  end_ai-same,
}
use asio_chat_server.Network.Events.Counter.{step-next_room}
use asio_chat_server.Network.Events.{
  Event, creates, lists, exits, enters, chats, shouts, whispers, registers, logs_in, renames,
  deletes_account, requests_friend, accepts_friend, rejects_friend, removes_friend,
  gets_pending_friends, gets_friend_list, gets_balance, transfers, asks_ai, ends_ai, disconnects,
  runs, step, run,
}

module _ {D : Type 0} where
  set_current_room-RoomsOk :
      (sid : ℕ) (r : Option ℕ) (w : World D) → RoomsOk w → RoomsOk (set_current_room sid r w)
  unfolding set_current_room
  set_current_room-RoomsOk sid r w v = RoomsOk-sessions w _ w.online v

  push_leave-RoomsOk :
      (sid : ℕ) (r : Option ℕ) (w : World D) → RoomsOk w → RoomsOk (push_leave sid r w)
  unfolding push_leave
  push_leave-RoomsOk sid none w v = v
  push_leave-RoomsOk sid (some rid) w v = push_job-RoomsOk w v rid (leave sid)

  -- The rooms alone count.
  RoomsOk-same : {w w' : World D} → rooms_of w' ≡ rooms_of w → RoomsOk w → RoomsOk w'
  RoomsOk-same {w} {w'} e v =
      let rooms = ap (λ x. x.0) e in
      let listed = ap (λ x. x.1.0) e in
      let next = ap (λ x. x.1.1) e in
      record {
        listed_alive = λ r lt h. rw rooms (v.listed_alive r (rw next at lt) (rw listed at h));
        alive_listed = λ r p lt h. rw listed (v.alive_listed r p (rw next at lt) (rw rooms at h));
        dead_empty = λ r h. rw rooms (v.dead_empty r (rw rooms at h));
        fresh = λ r h. rw next (v.fresh r (rw listed at h));
      }

  on_disconnected-RoomsOk : (sid : ℕ) (w : World D) → RoomsOk w → RoomsOk (on_disconnected sid w)
  unfolding on_disconnected
  on_disconnected-RoomsOk sid w v =
      let left = push_leave-RoomsOk sid (w.sessions sid).current_room w v in
      elim (Bool-cases ((w.sessions sid).player_id == 0)) [
        | inl e ↦ rw e (RoomsOk-sessions _ _ _ left)
        | inr e ↦ rw e (RoomsOk-sessions _ _ _ left)
      ]

module _ {D : Type 0} (enc : Encoding) (w : World D) (v : RoomsOk w) where
  handle_exit_room-RoomsOk : (sid : ℕ) → RoomsOk (handle_exit_room enc sid w)
  unfolding handle_exit_room
  handle_exit_room-RoomsOk sid = elim (Option-cases (w.sessions sid).current_room) [
    | inl e ↦ rw (e, handle_exit_room) (send-RoomsOk w v sid _)
    | inr (rid, e) ↦
        rw (e, handle_exit_room)
          (send-RoomsOk _
            (set_current_room-RoomsOk sid none _ (push_leave-RoomsOk sid (some rid) w v)) sid _)
  ]

  handle_enter_room-RoomsOk : (sid rid : ℕ) → RoomsOk (handle_enter_room enc sid rid w)
  unfolding handle_enter_room
  handle_enter_room-RoomsOk sid rid = elim (Option-cases (find_room rid w)) [
    | inl e ↦ rw (e, handle_enter_room) (send-RoomsOk w v sid _)
    | inr (found, e) ↦
        rw (e, handle_enter_room)
          (send-RoomsOk _
            (push_job-RoomsOk _
              (set_current_room-RoomsOk sid (some found) _
                (push_leave-RoomsOk sid (w.sessions sid).current_room w v))
              found (enter sid))
            sid _)
  ]

  handle_chat-RoomsOk : (sid : ℕ) (msg : List ℕ) → RoomsOk (handle_chat enc sid msg w)
  unfolding handle_chat
  handle_chat-RoomsOk sid msg = elim (Option-cases (w.sessions sid).current_room) [
    | inl e ↦ rw (e, handle_chat) v
    | inr (rid, e) ↦ rw (e, handle_chat) (push_job-RoomsOk w v rid _)
  ]

  whisper_to-RoomsOk :
      (sid target : ℕ) (msg : List ℕ) (to : Option ℕ) → RoomsOk (whisper_to enc sid target msg to w)
  unfolding whisper_to
  whisper_to-RoomsOk sid target msg none = send-RoomsOk w v sid _
  whisper_to-RoomsOk sid target msg (some to) =
      elim (Bool-cases (target == (w.sessions sid).player_id)) [
        | inl e ↦ rw e (send-RoomsOk w v sid _)
        | inr e ↦ rw e (send-RoomsOk w v to _)
      ]

  handle_whisper-RoomsOk :
      (sid : ℕ) (target msg : List ℕ) → RoomsOk (handle_whisper enc sid target msg w)
  unfolding handle_whisper
  handle_whisper-RoomsOk sid target msg = whisper_to-RoomsOk sid _ msg (get_session _ w.online)

module _ (store : Store) (bcrypt : Bcrypt) (enc : Encoding) (w : World store.State)
    (v : RoomsOk w) where
  delete_account-RoomsOk :
      (others : store.State → store.State) (sid : ℕ)
      → RoomsOk (handle_delete_account store others sid w)
  unfolding handle_delete_account
  delete_account-RoomsOk others sid =
      elim (Result-cases (begin store (w.sessions sid) >>= λ me. find_me store me w.db)) [
        | inl (msg, e) ↦ rw (e, handle_delete_account) (send-RoomsOk w v sid _)
        | inr (user, e) ↦
            let after = save store (delete_user user ∷ []) (others w.db) in
            rw (e, handle_delete_account)
              (if_both RoomsOk (is_saved after.0) _ _
                (send-RoomsOk _
                  (set_current_room-RoomsOk sid none _ (
                    push_leave-RoomsOk sid (w.sessions sid).current_room (record w { db = after.1 })
                      (RoomsOk-same refl v)))
                  sid _)
                (send-RoomsOk _ (RoomsOk-same refl v) sid _))
      ]

  -- Any event but the last possible creation of a room keeps the rooms in order.
  step-RoomsOk :
      (e : Event store.State)
      → 0 < w.next_room
      → w.next_room + 1 < 2 ^ 32
      → RoomsOk (step store bcrypt enc e w)
  unfolding step handle_create_room handle_get_room_list handle_shout
  step-RoomsOk (creates sid name) p small =
      send-RoomsOk _ (create_room-RoomsOk w v (enc.to_wide name) p small) sid _
  step-RoomsOk (lists sid) p small = send-RoomsOk w v sid _
  step-RoomsOk (exits sid) p small = handle_exit_room-RoomsOk enc w v sid
  step-RoomsOk (enters sid rid) p small = handle_enter_room-RoomsOk enc w v sid rid
  step-RoomsOk (chats sid msg) p small = handle_chat-RoomsOk enc w v sid msg
  step-RoomsOk (shouts sid msg) p small = broadcast_all-RoomsOk _ w v
  step-RoomsOk (whispers sid target msg) p small = handle_whisper-RoomsOk enc w v sid target msg
  step-RoomsOk (registers salt others sid name email password) p small =
      RoomsOk-same (register-same store w bcrypt salt others sid name email password) v
  step-RoomsOk (logs_in salt others sid email password) p small =
      RoomsOk-same (login-same store w bcrypt enc salt others sid email password) v
  step-RoomsOk (renames others sid nickname) p small =
      RoomsOk-same (nickname-same store w enc others sid nickname) v
  step-RoomsOk (deletes_account others sid) p small = delete_account-RoomsOk others sid
  step-RoomsOk (requests_friend others sid email) p small =
      RoomsOk-same (request-same store w others sid email) v
  step-RoomsOk (accepts_friend others sid email) p small =
      RoomsOk-same (accept-same store w others sid email) v
  step-RoomsOk (rejects_friend others sid email) p small =
      RoomsOk-same (reject-same store w others sid email) v
  step-RoomsOk (removes_friend others sid email) p small =
      RoomsOk-same (remove-same store w others sid email) v
  step-RoomsOk (gets_pending_friends sid) p small = RoomsOk-same (pending-same store w sid) v
  step-RoomsOk (gets_friend_list sid) p small = RoomsOk-same (friend_list-same store w sid) v
  step-RoomsOk (gets_balance sid) p small = RoomsOk-same (balance-same store w sid) v
  step-RoomsOk (transfers mode others sid target amount) p small =
      RoomsOk-same (transfer-same store w enc mode others sid target amount) v
  step-RoomsOk (asks_ai enabled sid message) p small =
      RoomsOk-same (ask_ai-same store w enabled sid message) v
  step-RoomsOk (ends_ai thrown sid) p small = RoomsOk-same (end_ai-same store w thrown sid) v
  step-RoomsOk (disconnects sid) p small = on_disconnected-RoomsOk sid w v
  step-RoomsOk (runs rid) p small = run_job-RoomsOk rid w v

module _ (store : Store) (bcrypt : Bcrypt) where
  -- Through every history of packets of any kind, ends of the coroutines that ask the model,
  -- disconnections and executed jobs, in any order, that cannot use up the room ids, whatever the
  -- database answers: a room that was created is listed exactly while it is
  -- not dead, a dead room has no members, and only ids given out are listed.
  pub run-RoomsOk :
      (enc : Encoding) (es : List (Event store.State)) (w : World store.State)
      → RoomsOk w
      → 0 < w.next_room
      → w.next_room + length es < 2 ^ 32
      → RoomsOk (run store bcrypt enc es w)
  unfolding run
  run-RoomsOk enc [] w v p small = v
  run-RoomsOk enc (e ∷ es) w v p small =
      let moved = step-next_room store bcrypt enc e w (omega arith) in
      run-RoomsOk enc es (step store bcrypt enc e w)
        (step-RoomsOk store bcrypt enc w v e p (omega arith)) (omega arith) (omega arith)
