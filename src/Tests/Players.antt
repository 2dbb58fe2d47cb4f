-- ===== src/Tests/Players.antt =====
-- Runs of the handlers that work on the database.
use asio_chat_server.Common.{
  ℕ, ◌<◌, ltb, if◌then◌else◌, if_of_true, sym, ◌≡◌, refl, ◌⊎◌, true, false, some, List, [], ◌∷◌,
  arith, lookup, bytes_eq, String,
}
use asio_chat_server.Common.Int.{pos, ◌+ℤ◌}
use asio_chat_server.Network.Reply.{s_login, s_accept_friend}
use asio_chat_server.Network.World.{send}
use asio_chat_server.Network.RoomHandlers.{on_disconnected}
use asio_chat_server.Accounts.Store.{User, Friendship, accepted, modify_friendship}
use asio_chat_server.Accounts.Auth.{handle_login, login_user, upgrade, password_ok}
use asio_chat_server.Accounts.Prelude.{ok}
use asio_chat_server.Security.InputValidator.{is_valid_email, is_valid_password}
use asio_chat_server.Security.PasswordHasher.{is_hash, verify, constant_time_equals, fold_diff}
use asio_chat_server.Accounts.Auth.Login.{Known, handle_login-cases, second_login_stays}
use asio_chat_server.Accounts.Friends.{handle_accept_friend}
use asio_chat_server.Accounts.Friends.Laws.{Refused, Applied, Pending, handle_accept_friend-cases}
use asio_chat_server.Accounts.Transfer.{occ, upd_lock, handle_transfer}
use asio_chat_server.Accounts.Transfer.Conservation.{Conserves}
use asio_chat_server.Accounts.Transfer.Loop.{handle_transfer-Conserves}
use asio_chat_server.Accounts.Transfer.Replies.{Replied, handle_transfer-Replied}
use asio_chat_server.Tests.Fixtures.{
  Db, memory, memory_laws, toy_bcrypt, plain_text, ann, bob, lobby,
}

-- No other connection commits anything.
abbrev quiet : Db → Db
quiet st = st

abbrev eve_email : List ℕ
eve_email = b'e' ∷ b'@' ∷ b'x' ∷ b'.' ∷ b'd' ∷ b'e' ∷ []

abbrev right_password : List ℕ
right_password = 1 ∷ 2 ∷ 3 ∷ 4 ∷ 5 ∷ 6 ∷ 7 ∷ 8 ∷ []

handle_transfer-Conserves_example :
    Conserves memory memory_laws lobby.db
      (handle_transfer memory plain_text occ (λ k. quiet) 11 bob.nickname (pos 30) lobby).db
unfolding ◌+ℤ◌
handle_transfer-Conserves_example =
    handle_transfer-Conserves memory memory_laws plain_text occ (λ k. quiet) 11 bob.nickname
      (pos 30) lobby (λ k st v. (v.0, refl)) (omega arith)

-- All rows are gone before what would be a fifth attempt.
abbrev wiped : ℕ → Db → Db
wiped k = if ltb k 4 then quiet else (λ st. (([], []), ([], [])))

wiped-late : (k : ℕ) → k < 4 → quiet ≡ wiped k
wiped-late k h = sym (if_of_true {b = ltb k 4} _ _ (ground arith))

handle_transfer-Replied_example :
    Replied memory 11 lobby
      (handle_transfer memory plain_text upd_lock (λ k. quiet) 11 bob.nickname (pos 30) lobby)
    × (handle_transfer memory plain_text upd_lock (λ k. quiet) 11 bob.nickname (pos 30) lobby
        ≡ handle_transfer memory plain_text upd_lock wiped 11 bob.nickname (pos 30) lobby)
handle_transfer-Replied_example =
    handle_transfer-Replied memory plain_text upd_lock (λ k. quiet) wiped 11 bob.nickname (pos 30)
      lobby wiped-late

handle_login-cases_example :
    let w' =
      handle_login memory toy_bcrypt plain_text (some []) quiet 13 ann.email right_password lobby in
    ((msg : String) × (w' ≡ send 13 (s_login false msg []) lobby))
    ⊎ ((found : User) × Known memory toy_bcrypt ann.email right_password lobby.db found
        × (let user = (upgrade memory toy_bcrypt (some []) quiet right_password found lobby.db).0 in
            (w'.sent ≡ (13, s_login true "Login successful" user.nickname) ∷ [])
            × ((w'.sessions 13).player_id ≡ user.id)
            × ((w'.sessions 13).nickname ≡ user.nickname)
            × (lookup user.id w'.online ≡ some 13)))
handle_login-cases_example =
    handle_login-cases memory toy_bcrypt plain_text (some []) quiet 13 ann.email right_password
      lobby

ann_logs_in : login_user memory toy_bcrypt ann.email right_password lobby.db ≡ ok ann
unfolding login_user bytes_eq is_valid_email is_valid_password is_hash verify constant_time_equals
    fold_diff password_ok
ann_logs_in = refl

second_login_stays_example :
    let w' =
      handle_login memory toy_bcrypt plain_text (some []) quiet 12 ann.email right_password lobby in
    (lookup 2 w'.online ≡ some 12)
    × (lookup 2 (on_disconnected 12 w').online ≡ some 12)
    × ((((on_disconnected 12 w').sessions) 12).connected ≡ false)
unfolding upgrade is_hash
second_login_stays_example =
    second_login_stays memory toy_bcrypt plain_text (some []) quiet 12 2 ann.email right_password
      lobby ann refl ann_logs_in (omega arith)

handle_accept_friend-cases_example :
    let w' = handle_accept_friend memory quiet 12 ann.email lobby in
    Refused memory memory_laws s_accept_friend quiet 12 lobby w'
    ⊎ ((f : Friendship) × Pending memory memory_laws (lobby.sessions 12) ann.email lobby.db f
        × Applied memory memory_laws s_accept_friend quiet 12
            (modify_friendship f (record f { status = accepted }) ∷ [])
            lobby
            w')
handle_accept_friend-cases_example =
    handle_accept_friend-cases memory memory_laws quiet 12 ann.email lobby
