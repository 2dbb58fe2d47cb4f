-- ===== src/Accounts/Profile.antt =====
-- `Handle_C_UPDATE_NICKNAME`, `Handle_C_DELETE_ACCOUNT` and `Handle_C_AI_CHAT` of
-- Server/Network/ClientPacketHandler.cpp. `others` is what other connections commit between the
-- queries of a handler and its flush.
pub mod Laws
use asio_chat_server.Common.{
  ℕ, Bool, true, false, Option, none, some, List, [], ◌∷◌, String, ◌==◌, ◌||◌, ltb, length,
  if◌then◌else◌,
}
use asio_chat_server.Network.Reply.{Reply, s_update_nickname, s_delete_account, s_ai_chat}
use asio_chat_server.Network.World.{GameSession, World, send, set_session, set_current_room}
use asio_chat_server.Network.RoomHandlers.{Encoding, push_leave}
use asio_chat_server.Security.InputValidator.{is_valid_name}
use asio_chat_server.Accounts.Store.{User, Change, modify_user, delete_user, Store}
use asio_chat_server.Accounts.Prelude.{Result, ok, fail, ◌>>=◌, ◌>>◌, check, begin, find_me}
use asio_chat_server.Accounts.Store.{is_saved, save}

module _ (store : Store) where
  unfoldable pub nickname_user : GameSession → List ℕ → store.State → Result User
  unfolding begin find_me
  nickname_user s nickname st =
      check (is_valid_name nickname) "Invalid nickname (2-20 characters)" >> begin store s >>= λ me.
      find_me store me st

  unfoldable pub handle_update_nickname :
      Encoding → (store.State → store.State) → ℕ → List ℕ → World store.State → World store.State
  unfolding nickname_user
  handle_update_nickname enc others sid nickname w =
      let s = w.sessions sid in
      elim (nickname_user s nickname w.db) [
        | fail msg ↦ send sid (s_update_nickname false msg) w
        | ok user ↦
            let change = modify_user user (record user { nickname = nickname }) in
            let (outcome, st) = save store (change ∷ []) (others w.db) in
            (if is_saved outcome
              then send sid (s_update_nickname true "") (
                  set_session sid (record s { nickname = enc.to_wide nickname })
                    (record w { db = st }))
              else send sid (s_update_nickname false "Database error") (record w { db = st }))
      ]

  unfoldable pub handle_delete_account :
      (store.State → store.State) → ℕ → World store.State → World store.State
  unfolding begin find_me push_leave
  handle_delete_account others sid w =
      elim (begin store (w.sessions sid) >>= λ me. find_me store me w.db) [
        | fail msg ↦ send sid (s_delete_account false msg) w
        | ok user ↦
            let (outcome, st) = save store (delete_user user ∷ []) (others w.db) in
            (if is_saved outcome
              then send sid (s_delete_account true "") (
                  set_current_room sid none
                    (push_leave sid (w.sessions sid).current_room (record w { db = st })))
              else send sid (s_delete_account false "Database error") (record w { db = st }))
      ]

-- The checks before the reply of the model is asked for; `enabled` is `AiChatService::IsEnabled`.
unfoldable pub ai_chat_input : Bool → GameSession → List ℕ → Result (Unit {0})
ai_chat_input enabled s message =
    (if s.player_id == 0 then fail "Not logged in" else ok tt)
    >> (if length message == 0 || ltb 2000 (length message)
        then fail "Message must be 1-2000 bytes"
        else ok tt)
    >> check enabled "AI chat is disabled on this server (no API key)"
    >> (if s.ai_busy then fail "Previous AI reply is still in progress" else ok tt)

-- With the flag whether the coroutine of the reply was started.
unfoldable pub handle_ai_chat : {D : Type 0} → Bool → ℕ → List ℕ → World D → Bool × World D
unfolding ai_chat_input
handle_ai_chat enabled sid message w = elim (ai_chat_input enabled (w.sessions sid) message) [
  | fail msg ↦ (false, send sid (s_ai_chat true false msg) w)
  | ok _ ↦ (true, set_session sid (record (w.sessions sid) { ai_busy = true }) w)
]

-- The end of the coroutine, by an exception or without.
unfoldable pub ai_chat_done : {D : Type 0} → Bool → ℕ → World D → World D
ai_chat_done thrown sid w =
    let told = if thrown then send sid (s_ai_chat true false "Internal error") w else w in
    set_session sid (record (w.sessions sid) { ai_busy = false }) told
