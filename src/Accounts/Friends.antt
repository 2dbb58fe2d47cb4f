-- ===== src/Accounts/Friends.antt =====
-- The friend handlers of Server/Network/ClientPacketHandler.cpp. `others` is what other
-- connections commit between the queries of a handler and its flush.
pub mod Laws
pub mod Requests
use asio_chat_server.Common.{
  ℕ, Bool, true, false, Option, none, some, List, [], ◌∷◌, ◌++◌, String, ◌==◌, ◌&&◌, if◌then◌else◌,
  is_empty, Dict, map,
}
use asio_chat_server.Network.Reply.{
  Reply, FriendInfo, s_request_friend, s_accept_friend, s_reject_friend, s_remove_friend,
  s_get_pending_friends, s_get_friend_list,
}
use asio_chat_server.Network.World.{GameSession, World, send}
use asio_chat_server.Network.SessionManager.{is_online}
use asio_chat_server.Security.InputValidator.{is_valid_email}
use asio_chat_server.Accounts.Store.{
  User, Friendship, FriendStatus, pending, accepted, FriendQuery, Side, from_side, to_side, Change,
  add_friendship, modify_friendship, delete_friendship, Store,
}
use asio_chat_server.Accounts.Prelude.{
  Result, ok, fail, ◌>>=◌, ◌>>◌, check, first_or, none_or, begin, find_user_by_email,
}
use asio_chat_server.Accounts.Store.{is_saved, save}

-- `Where(FromUserId == from).Where(ToUserId == to)`, with a status or without.
abbrev pub between : ℕ → ℕ → Option FriendStatus → FriendQuery
between from to status = record { by_from = some from; by_to = some to; by_status = status }

module _ (store : Store) where
  -- The common beginning: the sender's id and the id of the user with the address.
  unfoldable pub both_ids : GameSession → List ℕ → store.State → Result (ℕ × ℕ)
  unfolding begin find_user_by_email
  both_ids s email st =
      check (is_valid_email email) "Invalid email format" >> begin store s >>= λ me.
      find_user_by_email store email st >>= λ other. ok (me, other.id)

  -- The flush of the changes, with the replies for success and failure.
  unfoldable pub flush_changes :
      (Bool → String → Reply)
      → (store.State → store.State)
      → ℕ
      → Result (List Change)
      → World store.State
      → World store.State
  flush_changes reply others sid (fail msg) w = send sid (reply false msg) w
  flush_changes reply others sid (ok changes) w =
      let (outcome, st) = save store changes (others w.db) in
      if is_saved outcome
      then send sid (reply true "") (record w { db = st })
      else send sid (reply false "Database error") (record w { db = st })

  unfoldable pub request_changes : GameSession → List ℕ → store.State → Result (List Change)
  unfolding both_ids
  request_changes s email st = both_ids s email st >>= λ (me, other).
      (if me == other then fail "Cannot add yourself" else ok tt)
      >> none_or "Already requested or already friends"
          (store.friends_where (between me other none) st)
      >> none_or "The other user already sent you a request. Accept from pending list."
          (store.friends_where (between other me none) st)
      >> ok (
          add_friendship (record { id = 0; from_user = me; to_user = other; status = pending })
          ∷ [])

  unfoldable pub handle_request_friend :
      (store.State → store.State) → ℕ → List ℕ → World store.State → World store.State
  unfolding request_changes flush_changes
  handle_request_friend others sid email w =
      flush_changes s_request_friend others sid (request_changes (w.sessions sid) email w.db) w

  -- The pending request of the other user to the sender.
  unfoldable pub pending_row : GameSession → List ℕ → store.State → Result Friendship
  unfolding both_ids
  pending_row s email st = both_ids s email st >>= λ (me, other).
      first_or "No pending request from this user"
        (store.friends_where (between other me (some pending)) st)

  unfoldable pub handle_accept_friend :
      (store.State → store.State) → ℕ → List ℕ → World store.State → World store.State
  unfolding pending_row flush_changes
  handle_accept_friend others sid email w =
      flush_changes s_accept_friend others sid
        (pending_row (w.sessions sid) email w.db >>= λ f.
          ok (modify_friendship f (record f { status = accepted }) ∷ []))
        w

  unfoldable pub handle_reject_friend :
      (store.State → store.State) → ℕ → List ℕ → World store.State → World store.State
  unfolding pending_row flush_changes
  handle_reject_friend others sid email w =
      flush_changes s_reject_friend others sid
        (pending_row (w.sessions sid) email w.db >>= λ f. ok (delete_friendship f ∷ [])) w

  unfoldable pub remove_changes : GameSession → List ℕ → store.State → Result (List Change)
  unfolding both_ids
  remove_changes s email st = both_ids s email st >>= λ (me, other).
      (let list1 = store.friends_where (between other me (some accepted)) st in
        let list2 = store.friends_where (between me other (some accepted)) st in
        if is_empty list1 && is_empty list2
        then fail "Not a friend"
        else ok (map delete_friendship list1 ++ map delete_friendship list2))

  unfoldable pub handle_remove_friend :
      (store.State → store.State) → ℕ → List ℕ → World store.State → World store.State
  unfolding remove_changes flush_changes
  handle_remove_friend others sid email w =
      flush_changes s_remove_friend others sid (remove_changes (w.sessions sid) email w.db) w

  -- A row whose user did not load is left out.
  unfoldable pub pending_infos : List (Friendship × Option User) → List FriendInfo
  pending_infos [] = []
  pending_infos ((f, none) ∷ rows) = pending_infos rows
  pending_infos ((f, some u) ∷ rows) =
      record { email = u.email; nickname = u.nickname; is_online = false } ∷ pending_infos rows

  unfoldable pub friend_infos : Dict ℕ → List (Friendship × Option User) → List FriendInfo
  friend_infos online [] = []
  friend_infos online ((f, none) ∷ rows) = friend_infos online rows
  friend_infos online ((f, some u) ∷ rows) =
      record { email = u.email; nickname = u.nickname; is_online = is_online u.id online }
      ∷ friend_infos online rows

  unfoldable pub handle_get_pending_friends : ℕ → World store.State → World store.State
  unfolding begin pending_infos
  handle_get_pending_friends sid w = elim (begin store (w.sessions sid)) [
    | fail msg ↦ send sid (s_get_pending_friends false []) w
    | ok me ↦
        send sid
          (s_get_pending_friends true (
            pending_infos (
              store.friends_include from_side
                (record { by_from = none; by_to = some me; by_status = some pending }) w.db)))
          w
  ]

  unfoldable pub handle_get_friend_list : ℕ → World store.State → World store.State
  unfolding begin friend_infos
  handle_get_friend_list sid w = elim (begin store (w.sessions sid)) [
    | fail msg ↦ send sid (s_get_friend_list false []) w
    | ok me ↦
        let asked =
          store.friends_include to_side
            (record { by_from = some me; by_to = none; by_status = some accepted }) w.db in
        let answered =
          store.friends_include from_side
            (record { by_from = none; by_to = some me; by_status = some accepted }) w.db in
        send sid
          (s_get_friend_list true (friend_infos w.online asked ++ friend_infos w.online answered)) w
  ]
