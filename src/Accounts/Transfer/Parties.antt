-- ===== src/Accounts/Transfer/Parties.antt =====
-- The two rows that `Handle_C_TRANSFER` of Server/Network/ClientPacketHandler.cpp loads.
use asio_chat_server.Common.{
  All, ℕ, ◌≡◌, ◌≢◌, List, [], ◌∷◌, arith, ◌==◌, min, max, if◌then◌else◌, Bool-cases, inl, inr,
}
use asio_chat_server.Accounts.Store.{User, Store}
use asio_chat_server.Accounts.Store.Save.{StoreLaws}
use asio_chat_server.Accounts.Prelude.{Result, ok, fail, ◌>>=◌, first_or}
use asio_chat_server.Accounts.Transfer.{parties_occ, target_id, parties_locked}

abbrev pub Distinct : Result (User × User) → Type 0
Distinct (ok (from, to)) = from.id ≢ to.id
Distinct (fail msg) = Unit

module _ (store : Store) where
  pub parties_occ-Distinct :
      (me : ℕ) (target : List ℕ) (st : store.State) → Distinct (parties_occ store me target st)
  unfolding parties_occ
  parties_occ-Distinct me target st =
      both (store.users_by_id me st) (store.users_by_nickname target st)
    where
      both :
          (fs ts : List User)
          → Distinct (
              first_or "User not found" fs >>= λ from. first_or "Target not found" ts >>= λ to.
              if from.id == to.id then fail "Cannot transfer to yourself" else ok (from, to))
      both [] ts = tt
      both (f ∷ fs) [] = tt
      both (f ∷ fs) (t ∷ ts) = elim (Bool-cases (f.id == t.id)) [
        | inl e ↦ rw e tt
        | inr e ↦ rw e (λ same. ground arith)
      ]

module _ (store : Store) (laws : StoreLaws store) where
  parties_locked-Distinct :
      (me to : ℕ) (st : store.State) → to ≢ me → Distinct (parties_locked store me to st)
  unfolding parties_locked
  parties_locked-Distinct me to st d = elim (Bool-cases ((store.begin_work st).0)) [
    | inl e ↦ rw e (
        both (store.users_by_id (min me to) st) (store.users_by_id (max me to) st)
          (laws.rows_by_id (min me to) st) (laws.rows_by_id (max me to) st))
    | inr e ↦ rw e tt
  ]
    where
      both :
          (ls hs : List User)
          → All (λ u. u.id ≡ min me to) ls
          → All (λ u. u.id ≡ max me to) hs
          → Distinct (
              first_or "User not found" ls >>= λ low. first_or "User not found" hs >>= λ high.
              ok (if min me to == me then (low, high) else (high, low)))
      both [] hs al ah = tt
      both (l ∷ ls) [] al ah = tt
      both (l ∷ ls) (h ∷ hs) al ah = elim (Bool-cases (min me to == me)) [
        | inl e ↦ rw e (λ same. omega (arith, al.0, ah.0))
        | inr e ↦ rw e (λ same. omega (arith, al.0, ah.0))
      ]

  -- Under UPDLOCK too the rows are of two different players.
  pub locked-Distinct :
      (me : ℕ) (target : List ℕ) (st st' : store.State)
      → Distinct (target_id store me target st >>= λ to. parties_locked store me to st')
  unfolding target_id
  locked-Distinct me target st st' = found (store.users_by_nickname target st)
    where
      found :
          (ts : List User)
          → Distinct (
              (first_or "Target not found" ts >>= λ t.
              if t.id == me then fail "Cannot transfer to yourself" else ok t.id)
              >>= λ to. parties_locked store me to st')
      found [] = tt
      found (t ∷ ts) = elim (Bool-cases (t.id == me)) [
        | inl e ↦ rw e tt
        | inr e ↦ rw e (parties_locked-Distinct me t.id st' (λ same. ground arith))
      ]
