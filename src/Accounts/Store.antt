-- ===== src/Accounts/Store.antt =====
-- The entities of Server/DB/Entities/Entities.h, and what the handlers ask of a `DBContext`
-- (Server/DB/ORM/DBContext.h): `ToList` of a query and `SaveChanges`, with `save` for the latter. The
-- connection to the database server is a parameter. Ids are positive `int64` values, so they are natural numbers.
pub mod Rows
pub mod Save
use asio_chat_server.Common.{
  ℕ, suc, Bool, true, false, Option, none, some, List, [], ◌∷◌, ◌++◌, ◌≡◌, ◌≢◌, ◌==◌, ◌&&◌,
  if◌then◌else◌, bytes_eq,
}
use asio_chat_server.Common.Int.{ℤ, pos, negsuc}

pub record User : Type 0 where
  pub id : ℕ
  pub email : List ℕ
  pub nickname : List ℕ
  pub password : List ℕ
  pub balance : ℤ

pub data FriendStatus : Type 0 where
  pending accepted : FriendStatus

pub record Friendship : Type 0 where
  pub id : ℕ
  pub from_user : ℕ
  pub to_user : ℕ
  pub status : FriendStatus

-- An entry of `DBContext::Changes`, with the values of the object: for an update those at the time
-- of loading and the new ones.
pub data Change : Type 0 where
  add_user : User → Change
  modify_user : User → User → Change
  delete_user : User → Change
  add_friendship : Friendship → Change
  modify_friendship : Friendship → Friendship → Change
  delete_friendship : Friendship → Change

-- How `SaveChanges` ends: true; false with `HadOCCConflict()`; false without.
pub data Outcome : Type 0 where
  saved conflict failed : Outcome

abbrev pub eq_ℤ : ℤ → ℤ → Bool
eq_ℤ (pos a) (pos b) = a == b
eq_ℤ (negsuc a) (negsuc b) = a == b
eq_ℤ _ _ = false

abbrev pub eq_status : FriendStatus → FriendStatus → Bool
eq_status pending pending = true
eq_status accepted accepted = true
eq_status _ _ = false

-- The WHERE clause of an update: every column has the value that was loaded.
abbrev pub eq_user : User → User → Bool
eq_user a b =
    a.id == b.id
    && (eq_ℤ a.balance b.balance
        && (bytes_eq a.email b.email
            && (bytes_eq a.nickname b.nickname && bytes_eq a.password b.password)))

abbrev pub eq_friendship : Friendship → Friendship → Bool
eq_friendship a b =
    a.id == b.id
    && (a.from_user == b.from_user && (a.to_user == b.to_user && eq_status a.status b.status))

-- An update of the row that has the old values, if there is one.
unfoldable pub replace_user : User → User → List User → Option (List User)
replace_user old new [] = none
replace_user old new (u ∷ us) =
    let rest = replace_user old new us in
    if eq_user u old then some (new ∷ us) else (elim rest [ none ↦ none | some vs ↦ some (u ∷ vs) ])

unfoldable pub replace_friendship :
    Friendship → Friendship → List Friendship → Option (List Friendship)
replace_friendship old new [] = none
replace_friendship old new (f ∷ fs) =
    let rest = replace_friendship old new fs in
    if eq_friendship f old
    then some (new ∷ fs)
    else (elim rest [ none ↦ none | some gs ↦ some (f ∷ gs) ])

abbrev pub remove_user : ℕ → List User → List User
remove_user k [] = []
remove_user k (u ∷ us) = let rest = remove_user k us in if u.id == k then rest else u ∷ rest

abbrev pub remove_friendship : ℕ → List Friendship → List Friendship
remove_friendship k [] = []
remove_friendship k (f ∷ fs) =
    let rest = remove_friendship k fs in if f.id == k then rest else f ∷ rest

-- A query on `Friendship`: the columns that its `Where` calls fix.
pub record FriendQuery : Type 0 where
  pub by_from : Option ℕ
  pub by_to : Option ℕ
  pub by_status : Option FriendStatus

-- Which navigation of a friendship `Include` loads.
pub data Side : Type 0 where
  from_side to_side : Side

-- How the server answers a statement: done; done, but an update found no row; not done, or the key
-- of a new row cannot be fetched.
pub data Executed : Type 0 where
  executed no_row not_executed : Executed

-- The connection to the database: the committed rows, those that the open transaction sees, the
-- queries, of which one that the server fails answers with no rows, and what `SaveChanges` calls.
pub record Store : Type 1 where
  pub State : Type 0
  pub users : State → List User
  pub friendships : State → List Friendship
  pub users_by_id : ℕ → State → List User
  pub users_by_email : List ℕ → State → List User
  pub users_by_nickname : List ℕ → State → List User
  pub friends_where : FriendQuery → State → List Friendship
  pub friends_include : Side → FriendQuery → State → List (Friendship × Option User)
  pub view : State → List User × List Friendship
  pub begin_work : State → Bool × State
  pub execute : Change → State → Executed × State
  pub commit : State → Bool × State
  pub rollback : State → Bool × State

abbrev pub is_saved : Outcome → Bool
is_saved saved = true
is_saved conflict = false
is_saved failed = false

module _ (store : Store) where
  -- The loop over the changes, up to the first statement that is not done or finds no row.
  unfoldable pub flush_all : List Change → store.State → Outcome × store.State
  flush_all [] st = (saved, st)
  flush_all (c ∷ cs) st =
      let (ended, st') = store.execute c st in
      let rest = flush_all cs st' in
      elim ended [ executed ↦ rest | no_row ↦ (conflict, st') | not_executed ↦ (failed, st') ]

  -- `SaveChanges` on one entry for each row. The answers of `Begin`, `Commit` and `Rollback` are
  -- dropped. A transaction that was opened before the queries has written nothing by now, so it
  -- counts from here.
  unfoldable pub save : List Change → store.State → Outcome × store.State
  unfolding flush_all
  save cs st =
      let (outcome, st') = flush_all cs (store.begin_work st).1 in
      if is_saved outcome
      then (outcome, (store.commit st').1)
      else (outcome, (store.rollback st').1)

abbrev pub later : (ℕ → ℕ) → ℕ → ℕ
later fresh n = fresh (suc n)

-- The rows after a list of changes, in order; an update that finds no row fails the whole.
-- An inserted row gets its id from the server: `fresh` has one for each change.
unfoldable pub apply_changes :
    (ℕ → ℕ) → List Change → List User × List Friendship → Option (List User × List Friendship)
unfolding replace_user replace_friendship
apply_changes fresh [] (us, fs) = some (us, fs)
apply_changes fresh (add_user u ∷ cs) (us, fs) =
    apply_changes (later fresh) cs (us ++ record u { id = fresh 0 } ∷ [], fs)
apply_changes fresh (modify_user old new ∷ cs) (us, fs) = elim (replace_user old new us) [
  | none ↦ none
  | some vs ↦ apply_changes (later fresh) cs (vs, fs)
]
apply_changes fresh (delete_user u ∷ cs) (us, fs) =
    apply_changes (later fresh) cs (remove_user u.id us, fs)
apply_changes fresh (add_friendship f ∷ cs) (us, fs) =
    apply_changes (later fresh) cs (us, fs ++ record f { id = fresh 0 } ∷ [])
apply_changes fresh (modify_friendship old new ∷ cs) (us, fs) =
    elim (replace_friendship old new fs) [
      | none ↦ none
      | some gs ↦ apply_changes (later fresh) cs (us, gs)
    ]
apply_changes fresh (delete_friendship f ∷ cs) (us, fs) =
    apply_changes (later fresh) cs (us, remove_friendship f.id fs)
