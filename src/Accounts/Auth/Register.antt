-- ===== src/Accounts/Auth/Register.antt =====
-- `Handle_C_REGISTER` of Server/Network/ClientPacketHandler.cpp, branch by branch.
use asio_chat_server.Common.{ℕ, ◌≡◌, ◌⊎◌, true, false, List, [], ◌∷◌, ◌++◌, String}
use asio_chat_server.Network.Reply.{s_register}
use asio_chat_server.Network.World.{World}
use asio_chat_server.Security.InputValidator.{is_valid_name, is_valid_email, is_valid_password}
use asio_chat_server.Security.PasswordHasher.{Bcrypt, verify}
use asio_chat_server.Security.PasswordHasher.Verify.{BcryptLaws}
use asio_chat_server.Accounts.Store.{User, Store}
use asio_chat_server.Accounts.Store.Save.{StoreLaws}
use asio_chat_server.Accounts.Auth.{initial_balance}

module _ (store : Store) (laws : StoreLaws store) (bcrypt : Bcrypt)
    (hashing : BcryptLaws bcrypt) where
  -- What a registration that passes every check was given, and the row that it makes.
  pub record Accepted (name email password : List ℕ) (st : store.State) (user : User) : Type 0 where
    pub name_valid : is_valid_name name ≡ true
    pub email_valid : is_valid_email email ≡ true
    pub password_valid : is_valid_password password ≡ true
    pub email_unused : store.users_by_email email st ≡ []
    pub name_unused : store.users_by_nickname name st ≡ []
    pub email_kept : user.email ≡ email
    pub name_kept : user.nickname ≡ name
    pub opening_balance : user.balance ≡ initial_balance
    pub accepts_password : verify bcrypt password user.password ≡ true

  -- How a registration can end: it is refused and no row of a user changes beyond what other
  -- connections did, or it is answered with success and the table has one row more.
  abbrev pub Registers :
      (store.State → store.State)
      → ℕ
      → List ℕ
      → List ℕ
      → List ℕ
      → World store.State
      → World store.State
      → Type 0
  Registers others sid name email password w w' =
      ((msg : String) × (w'.sent ≡ (sid, s_register false msg) ∷ w.sent)
        × ((store.users w'.db ≡ store.users w.db)
            ⊎ (store.users w'.db ≡ store.users (others w.db))))
      ⊎ ((user : User) × (fresh : ℕ) × (w'.sent
            ≡ (sid, s_register true "Registration successful") ∷ w.sent)
          × Accepted name email password w.db user
          × (store.users w'.db ≡ store.users (others w.db) ++ record user { id = fresh } ∷ []))
