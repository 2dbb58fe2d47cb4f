-- ===== src/Accounts/Auth.antt =====
-- `Handle_C_REGISTER` and `Handle_C_LOGIN` of Server/Network/ClientPacketHandler.cpp. `others` is
-- what other connections commit between the queries of a handler and its flush.
pub mod Register
pub mod Login
use asio_chat_server.Common.{
  ℕ, Bool, true, false, not, Option, none, some, List, [], ◌∷◌, String, ◌&&◌, if◌then◌else◌,
  bytes_eq, is_empty,
}
use asio_chat_server.Common.Int.{ℤ, pos}
use asio_chat_server.Network.Reply.{Reply, s_register, s_login}
use asio_chat_server.Network.World.{GameSession, World, send, set_session}
use asio_chat_server.Network.SessionManager.{register}
use asio_chat_server.Network.RoomHandlers.{Encoding}
use asio_chat_server.Security.InputValidator.{is_valid_name, is_valid_email, is_valid_password}
use asio_chat_server.Security.PasswordHasher.{Bcrypt, hash, verify, is_hash, default_cost}
use asio_chat_server.Accounts.Store.{
  User, Change, add_user, modify_user, Outcome, saved, conflict, failed, is_saved, Store, save,
}
use asio_chat_server.Accounts.Prelude.{Result, ok, fail, ◌>>=◌, ◌>>◌, check, first_or, none_or}

abbrev pub initial_balance : ℤ
initial_balance = pos 10_000

-- The test of `SaveChanges`.
module _ (store : Store) (bcrypt : Bcrypt) where
  -- The checks of a registration, up to the row that is to be inserted.
  unfoldable pub register_user :
      Option (List ℕ) → List ℕ → List ℕ → List ℕ → store.State → Result User
  register_user salt name email password st =
      let password_hash = hash bcrypt password default_cost salt in
      check (is_valid_name name) "Invalid name (2-20 characters)"
      >> check (is_valid_email email) "Invalid email format"
      >> check (is_valid_password password) "Invalid password (8-64 characters)"
      >> none_or "Email already registered" (store.users_by_email email st)
      >> none_or "Nickname already taken" (store.users_by_nickname name st)
      >> check (not (is_empty password_hash)) "Server error"
      >> ok (record {
        id = 0;
        email = email;
        nickname = name;
        password = password_hash;
        balance = initial_balance;
      })

  unfoldable pub handle_register :
      Option (List ℕ)
      → (store.State → store.State)
      → ℕ
      → List ℕ
      → List ℕ
      → List ℕ
      → World store.State
      → World store.State
  unfolding register_user
  handle_register salt others sid name email password w =
      elim (register_user salt name email password w.db) [
        | fail msg ↦ send sid (s_register false msg) w
        | ok user ↦
            let (outcome, st) = save store (add_user user ∷ []) (others w.db) in
            (if is_saved outcome
              then send sid (s_register true "Registration successful") (record w { db = st })
              else send sid (s_register false "Database error") (record w { db = st }))
      ]

  unfoldable pub password_ok : List ℕ → List ℕ → Bool
  password_ok password stored =
      if is_hash stored then verify bcrypt password stored else bytes_eq stored password

  -- After a conflict the object holds the row as it is now.
  unfoldable pub reloaded : User → Outcome → store.State → User
  reloaded user saved st = user
  reloaded user failed st = user
  reloaded user conflict st = elim (store.users_by_id user.id st) [ [] ↦ user | row ∷ rows ↦ row ]

  -- The upgrade of a password that is stored in the clear, at the first login that meets it.
  unfoldable pub upgrade :
      Option (List ℕ)
      → (store.State → store.State)
      → List ℕ
      → User
      → store.State
      → User × store.State
  unfolding reloaded
  upgrade salt others password user st =
      let upgraded = hash bcrypt password default_cost salt in
      if is_hash user.password
      then (user, st)
      else if is_empty upgraded
      then (user, st)
      else (let row = record user { password = upgraded } in
          let (outcome, st') = save store (modify_user user row ∷ []) (others st) in
          (reloaded row outcome st', st'))

  -- The checks of a login, up to the row of the player.
  unfoldable pub login_user : List ℕ → List ℕ → store.State → Result User
  unfolding password_ok
  login_user email password st =
      check (is_valid_email email && is_valid_password password) "Invalid input"
      >> first_or "Email not found" (store.users_by_email email st)
      >>= λ user. check (password_ok password user.password) "Wrong password" >> ok user

  unfoldable pub handle_login :
      Encoding
      → Option (List ℕ)
      → (store.State → store.State)
      → ℕ
      → List ℕ
      → List ℕ
      → World store.State
      → World store.State
  unfolding login_user upgrade
  handle_login enc salt others sid email password w = elim (login_user email password w.db) [
    | fail msg ↦ send sid (s_login false msg []) w
    | ok found ↦
        let (user, st) = upgrade salt others password found w.db in
        let s = w.sessions sid in
        send sid (s_login true "Login successful" user.nickname) (
          set_session sid (record s { player_id = user.id; nickname = enc.to_wide user.nickname })
            (record w { db = st; online = register user.id sid w.online }))
  ]
