-- ===== src/Accounts/Auth/Login.antt =====
-- `Handle_C_LOGIN` of Server/Network/ClientPacketHandler.cpp, and what a second login leaves behind.
use asio_chat_server.Common.{
  ℕ, ◌≡◌, ◌≢◌, refl, ◌∙◌, ◌⊎◌, inl, inr, true, false, Option, some, List, [], ◌∷◌, String, arith,
  ◌&&◌, lookup,
}
use asio_chat_server.Network.Reply.{s_login}
use asio_chat_server.Network.World.{World, send, push_job}
use asio_chat_server.Network.SessionManager.{register, lookup-register, lookup-unregister}
use asio_chat_server.Network.RoomHandlers.{Encoding, on_disconnected, push_leave}
use asio_chat_server.Security.InputValidator.{is_valid_email, is_valid_password}
use asio_chat_server.Security.PasswordHasher.{Bcrypt}
use asio_chat_server.Accounts.Store.{User, Store}
use asio_chat_server.Accounts.Prelude.{ok, ◌>>◌, check, first_or, >>=-ok, first_or-ok, Result-cases}
use asio_chat_server.Accounts.Auth.{login_user, upgrade, handle_login, password_ok}

module _ (store : Store) (bcrypt : Bcrypt) where
  -- The row whose password was checked.
  pub record Known (email password : List ℕ) (st : store.State) (user : User) : Type 0 where
    pub email_valid : is_valid_email email ≡ true
    pub password_valid : is_valid_password password ≡ true
    pub rows : List User
    pub found : store.users_by_email email st ≡ user ∷ rows
    pub right_password : password_ok store bcrypt password user.password ≡ true

  login_user-Known :
      (email password : List ℕ) (st : store.State) (user : User)
      → login_user store bcrypt email password st ≡ ok user
      → Known email password st user
  unfolding login_user
  login_user-Known email password st user e =
      let (found, e₀, e₁) =
        >>=-ok
          (check (is_valid_email email && is_valid_password password) "Invalid input"
            >> first_or "Email not found" (store.users_by_email email st))
          _ e in
      let same : found ≡ user = ground arith in
      let first : first_or "Email not found" (store.users_by_email email st) ≡ ok user =
        ground arith in
      let (rows, row) = first_or-ok "Email not found" (store.users_by_email email st) first in
      record {
        email_valid = ground arith;
        password_valid = ground arith;
        rows = rows;
        found = row;
        right_password = ground arith;
      }

  -- A login is refused, and then nothing but the reply changes; or the password was right for the
  -- first row with the address, and the session then has the id and the nickname of the row
  -- as the upgrade of its password left it, and is the one registered under that id.
  pub handle_login-cases :
      (enc : Encoding) (salt : Option (List ℕ)) (others : store.State → store.State) (sid : ℕ)
      (email password : List ℕ) (w : World store.State)
      → let w' = handle_login store bcrypt enc salt others sid email password w in
        ((msg : String) × (w' ≡ send sid (s_login false msg []) w))
        ⊎ ((found : User) × Known email password w.db found
            × (let user = (upgrade store bcrypt salt others password found w.db).0 in
                (w'.sent ≡ (sid, s_login true "Login successful" user.nickname) ∷ w.sent)
                × ((w'.sessions sid).player_id ≡ user.id)
                × ((w'.sessions sid).nickname ≡ enc.to_wide user.nickname)
                × (lookup user.id w'.online ≡ some sid)))
  unfolding handle_login
  handle_login-cases enc salt others sid email password w =
      elim (Result-cases (login_user store bcrypt email password w.db)) [
        | inl (msg, e) ↦ rw (e, handle_login) (inl (msg, refl))
        | inr (found, e) ↦
            let user = (upgrade store bcrypt salt others password found w.db).0 in
            rw (e, handle_login)
              (inr (
                found,
                login_user-Known email password w.db found e,
                (
                  refl,
                  ground arith,
                  ground arith,
                  lookup-register user.id sid user.id w.online ∙ ground arith,
                ),
              ))
      ]

  -- A session that is registered as one player and logs in as another stays registered under the
  -- first id, and does so even after it is disconnected.
  pub second_login_stays :
      (enc : Encoding) (salt : Option (List ℕ)) (others : store.State → store.State) (sid first : ℕ)
      (email password : List ℕ) (w : World store.State) (found : User)
      → lookup first w.online ≡ some sid
      → login_user store bcrypt email password w.db ≡ ok found
      → (upgrade store bcrypt salt others password found w.db).0.id ≢ first
      → let w' = handle_login store bcrypt enc salt others sid email password w in
        (lookup first w'.online ≡ some sid)
        × (lookup first (on_disconnected sid w').online ≡ some sid)
        × ((((on_disconnected sid w').sessions) sid).connected ≡ false)
  unfolding handle_login on_disconnected push_leave push_job
  second_login_stays enc salt others sid first email password w found here e ne =
      let user = (upgrade store bcrypt salt others password found w.db).0 in
      rw (e, handle_login)
        (ground (
          arith,
          lookup-register user.id sid first w.online,
          lookup-unregister user.id sid first (register user.id sid w.online),
        ))
