-- ===== src/Accounts/Prelude.antt =====
-- Server/Network/HandlerPrelude.cpp: how the handlers that need a login and the database begin.
use asio_chat_server.Common.{
  ℕ, Bool, true, false, List, [], ◌∷◌, String, ◌==◌, if◌then◌else◌, ◌≡◌, refl, ◌⊎◌, inl, inr, arith,
}
use asio_chat_server.Network.World.{GameSession}
use asio_chat_server.Accounts.Store.{User, Store}

-- A value, or the text of a failure reply.
pub data Result {ℓ} (A : Type ℓ) : Type ℓ where
  ok : A → Result A
  fail : String → Result A

infixl 5 ◌>>◌ ◌>>=◌
-- What follows a step that may fail is skipped after a failure.
abbrev pub ◌>>=◌ {ℓ κ} : {X : Type ℓ} {Y : Type κ} → Result X → (X → Result Y) → Result Y
fail msg >>= next = fail msg
ok x >>= next = next x

abbrev pub ◌>>◌ {κ} : {Y : Type κ} → Result (Unit {0}) → Result Y → Result Y
step >> rest = step >>= λ _. rest

abbrev pub check : Bool → String → Result (Unit {0})
check true msg = ok tt
check false msg = fail msg

-- The first row of a query, or the failure if there is none.
abbrev pub first_or {ℓ} : {A : Type ℓ} → String → List A → Result A
first_or msg [] = fail msg
first_or msg (x ∷ xs) = ok x

abbrev pub none_or {ℓ} : {A : Type ℓ} → String → List A → Result (Unit {0})
none_or msg [] = ok tt
none_or msg (x ∷ xs) = fail msg

module _ (store : Store) where
  -- The constructor `HandlerPrelude`: the id of the player, who must be logged in.
  unfoldable pub begin : GameSession → Result ℕ
  begin s = if s.player_id == 0 then fail "Not logged in" else ok s.player_id

  unfoldable pub find_user_by_email : List ℕ → store.State → Result User
  find_user_by_email email st = first_or "Email not found" (store.users_by_email email st)

  unfoldable pub find_me : ℕ → store.State → Result User
  find_me me st = first_or "User not found" (store.users_by_id me st)

pub Result-cases {ℓ} :
    {A : Type ℓ} (r : Result A) → ((msg : String) × (r ≡ fail msg)) ⊎ ((a : A) × (r ≡ ok a))
Result-cases (ok a) = inr (a, refl)
Result-cases (fail msg) = inl (msg, refl)

pub >>=-ok {ℓ κ} :
    {X : Type ℓ} {Y : Type κ} (step : Result X) (next : X → Result Y) {y : Y}
    → (step >>= next) ≡ ok y
    → (x : X) × (step ≡ ok x) × (next x ≡ ok y)
>>=-ok (fail msg) next done = cc
>>=-ok (ok x) next done = (x, refl, done)

pub first_or-ok {ℓ} :
    {A : Type ℓ} (msg : String) (xs : List A) {x : A}
    → first_or msg xs ≡ ok x
    → (rest : List A) × (xs ≡ x ∷ rest)
first_or-ok msg [] e = cc
first_or-ok msg (y ∷ ys) e = (ys, ground arith)

pub none_or-ok {ℓ} : {A : Type ℓ} (msg : String) (xs : List A) → none_or msg xs ≡ ok tt → xs ≡ []
none_or-ok msg [] e = refl
none_or-ok msg (x ∷ xs) e = cc
