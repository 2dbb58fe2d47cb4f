-- ===== src/Accounts/Transfer.antt =====
-- `Handle_C_TRANSFER` and `Handle_C_GET_BALANCE` of Server/Network/ClientPacketHandler.cpp.
-- `others k` is what other connections commit, in attempt `k`, between the queries of the handler
-- and its flush; under UPDLOCK it comes before the locked queries, whose rows then stay as they
-- are until the flush.
pub mod Conservation
pub mod Parties
pub mod Loop
pub mod Replies
use asio_chat_server.Common.{
  ℕ, zero, suc, ◌+◌, Bool, true, false, Option, none, some, List, [], ◌∷◌, String, ltb, ◌==◌, ◌||◌,
  ◌&&◌, not, if◌then◌else◌, bytes_eq, min, max,
}
use asio_chat_server.Common.Int.{ℤ, pos, ◌+ℤ◌, ◌-ℤ◌, ltb_ℤ, leb_ℤ, wrap_int64}
use asio_chat_server.Network.Reply.{Reply, s_transfer, s_transfer_received, s_get_balance}
use asio_chat_server.Network.World.{GameSession, World, send}
use asio_chat_server.Network.SessionManager.{get_session}
use asio_chat_server.Network.RoomHandlers.{Encoding}
use asio_chat_server.Security.InputValidator.{is_valid_name}
use asio_chat_server.Accounts.Store.{
  User, Change, modify_user, Outcome, saved, conflict, failed, Store, save,
}
use asio_chat_server.Accounts.Prelude.{
  Result, ok, fail, ◌>>=◌, ◌>>◌, check, first_or, begin, find_me,
}

abbrev pub max_transfer_amount : ℤ
max_transfer_amount = pos 1_000_000_000

abbrev pub max_transfer_retry : ℕ
max_transfer_retry = 3

pub data TransferLockMode : Type 0 where
  occ upd_lock : TransferLockMode

-- `From->Balance -= Amount` and `To->Balance += Amount`
unfoldable pub debit : ℤ → User → User
debit amount u = record u { balance = wrap_int64 (u.balance -ℤ amount) }

unfoldable pub credit : ℤ → User → User
credit amount u = record u { balance = wrap_int64 (u.balance +ℤ amount) }

-- The dirty rows in the order of the identity map, by id.
abbrev pub both_changes : ℤ → User → User → List Change
both_changes amount from to =
    let lower = modify_user from (debit amount from) in
    let raise = modify_user to (credit amount to) in
    if ltb from.id to.id then lower ∷ raise ∷ [] else raise ∷ lower ∷ []

-- How an attempt ended: refused with a text, done with the two rows as they now are, or to be
-- tried again.
pub data Attempt : Type 0 where
  refused : String → Attempt
  done : User → User → Attempt
  retry : Attempt

module _ (store : Store) where
  -- The queries without locks.
  unfoldable pub parties_occ : ℕ → List ℕ → store.State → Result (User × User)
  parties_occ me target st =
      let to_users = store.users_by_nickname target st in
      first_or "User not found" (store.users_by_id me st) >>= λ from.
      first_or "Target not found" to_users >>= λ to.
      if from.id == to.id then fail "Cannot transfer to yourself" else ok (from, to)

  -- The look-up of the target's id, and the test on it.
  unfoldable pub target_id : ℕ → List ℕ → store.State → Result ℕ
  target_id me target st =
      first_or "Target not found" (store.users_by_nickname target st) >>= λ found.
      if found.id == me then fail "Cannot transfer to yourself" else ok found.id

  -- The locked queries, in ascending order of the ids.
  unfoldable pub parties_locked : ℕ → ℕ → store.State → Result (User × User)
  parties_locked me to st =
      let high_rows = store.users_by_id (max me to) st in
      if (store.begin_work st).0
      then (first_or "User not found" (store.users_by_id (min me to) st) >>= λ low.
          first_or "User not found" high_rows >>= λ high.
          ok (if min me to == me then (low, high) else (high, low)))
      else fail "Database error"

  -- From the test of the balance to the flush, which starts from the rows `at_flush`.
  unfoldable pub flush : ℤ → store.State → User → User → Attempt × store.State
  flush amount at_flush from to =
      if ltb_ℤ from.balance amount
      then (refused "Insufficient balance", at_flush)
      else (let (outcome, st) = save store (both_changes amount from to) at_flush in
          elim outcome [
            | saved ↦ (done (debit amount from) (credit amount to), st)
            | conflict ↦ (retry, st)
            | failed ↦ (refused "Database error", st)
          ])

  unfoldable pub flush_result : ℤ → store.State → Result (User × User) → Attempt × store.State
  unfolding flush
  flush_result amount at_flush (fail msg) = (refused msg, at_flush)
  flush_result amount at_flush (ok (from, to)) = flush amount at_flush from to

  -- One turn of the retry loop.
  unfoldable pub attempt :
      TransferLockMode
      → ℕ
      → List ℕ
      → ℤ
      → (store.State → store.State)
      → store.State
      → Attempt × store.State
  unfolding parties_occ target_id parties_locked flush_result
  attempt occ me target amount others st =
      flush_result amount (others st) (parties_occ me target st)
  attempt upd_lock me target amount others st =
      flush_result amount (others st)
        (target_id me target st >>= λ to. parties_locked me to (others st))

  -- The retry loop with its turns left, and the number of the turn.
  unfoldable pub attempts :
      TransferLockMode
      → ℕ
      → List ℕ
      → ℤ
      → (ℕ → store.State → store.State)
      → ℕ
      → ℕ
      → store.State
      → Attempt × ℕ × store.State
  unfolding attempt
  attempts mode me target amount others zero k st =
      (refused "Transfer failed after retries. Please try again.", k, st)
  attempts mode me target amount others (suc left) k st =
      let (ended, st') = attempt mode me target amount (others k) st in
      elim ended [
        | refused msg ↦ (refused msg, k, st')
        | done from to ↦ (done from to, k, st')
        | retry ↦ attempts mode me target amount others left (k + 1) st'
      ]

  -- The replies for how the loop ended.
  unfoldable pub answer :
      ℕ → List ℕ → ℤ → Attempt × ℕ × store.State → World store.State → World store.State
  answer sid my_nickname amount (refused msg, k, st) w =
      send sid (s_transfer false msg (pos 0) 0) (record w { db = st })
  answer sid my_nickname amount (retry, k, st) w = record w { db = st }
  answer sid my_nickname amount (done from to, k, st) w =
      let told =
        send sid (s_transfer true "Transfer complete" from.balance k) (record w { db = st }) in
      elim (get_session to.id w.online) [
        | none ↦ told
        | some other ↦ send other (s_transfer_received my_nickname amount to.balance) told
      ]

  -- The checks before the database is asked.
  unfoldable pub transfer_input : Encoding → GameSession → List ℕ → ℤ → Result ℕ
  unfolding begin
  transfer_input enc s target amount = begin store s >>= λ me.
      check (not (leb_ℤ amount (pos 0) || ltb_ℤ max_transfer_amount amount)) "Invalid amount"
      >> check (is_valid_name target) "Invalid nickname"
      >> (if bytes_eq target (enc.to_utf8 s.nickname)
          then fail "Cannot transfer to yourself"
          else ok me)

  unfoldable pub handle_transfer :
      Encoding
      → TransferLockMode
      → (ℕ → store.State → store.State)
      → ℕ
      → List ℕ
      → ℤ
      → World store.State
      → World store.State
  unfolding attempts answer transfer_input
  handle_transfer enc mode others sid target amount w =
      let s = w.sessions sid in
      elim (transfer_input enc s target amount) [
        | fail msg ↦ send sid (s_transfer false msg (pos 0) 0) w
        | ok me ↦
            answer sid (enc.to_utf8 s.nickname) amount
              (attempts mode me target amount others (suc max_transfer_retry) 0 w.db) w
      ]

  unfoldable pub handle_get_balance : ℕ → World store.State → World store.State
  unfolding begin find_me
  handle_get_balance sid w = elim (begin store (w.sessions sid) >>= λ me. find_me store me w.db) [
    | fail msg ↦ send sid (s_get_balance false (pos 0)) w
    | ok me ↦ send sid (s_get_balance true me.balance) w
  ]
