-- ===== src/Accounts/Store/Save.antt =====
-- What the database server is relied on for, and that `SaveChanges` (Server/DB/ORM/DBContext.h) then
-- applies all of its changes or none.
use asio_chat_server.Common.{
  ℕ, zero, suc, ◌≡◌, ◌≢◌, refl, ap, sym, ◌∙◌, if◌then◌else◌, none≢some, some_injective, true,
  Option, none, some, List, [], ◌∷◌, Option-cases, inl, inr, All,
}
use asio_chat_server.Accounts.Store.{
  User, Friendship, Change, add_user, modify_user, delete_user, add_friendship, modify_friendship,
  delete_friendship, Outcome, saved, conflict, failed, Executed, executed, no_row, not_executed,
  Store, replace_user, replace_friendship, flush_all, is_saved, save, apply_changes, FriendQuery,
}

abbrev pub Fixes {ℓ} : {A : Type ℓ} → Option A → A → Type ℓ
Fixes none a = Unit
Fixes (some b) a = a ≡ b

-- The conditions of a query, on a row.
pub record Meets (q : FriendQuery) (f : Friendship) : Type 0 where
  pub from_meets : Fixes q.by_from f.from_user
  pub to_meets : Fixes q.by_to f.to_user
  pub status_meets : Fixes q.by_status f.status

-- The committed rows.
abbrev pub rows : (store : Store) → store.State → List User × List Friendship
rows store st = (store.users st, store.friendships st)

-- Documented behaviour of the server: a transaction sees the committed rows and its own changes, and
-- the committed rows are as they were until its commit, which makes them what it sees; rows that a
-- query shows are rows of the table that meet its conditions. And three conditions on the connection,
-- whose answers `SaveChanges` drops: `Begin`, `Commit` and `Rollback` succeed.
pub record StoreLaws (store : Store) : Type 0 where
  pub begins : (st : store.State) → (store.begin_work st).0 ≡ true
  pub commits : (st : store.State) → (store.commit st).0 ≡ true
  pub rolls_back : (st : store.State) → (store.rollback st).0 ≡ true
  pub begun :
      (st : store.State)
      → (store.begin_work st).0 ≡ true
      → (store.view (store.begin_work st).1 ≡ rows store st)
        × (rows store (store.begin_work st).1 ≡ rows store st)
  pub changes_view :
      (c : Change) (st : store.State)
      → (store.execute c st).0 ≡ executed
      → (fresh : ℕ) × (apply_changes (λ n. fresh) (c ∷ []) (store.view st)
          ≡ some (store.view (store.execute c st).1))
  pub keeps_rows :
      (c : Change) (st : store.State) → rows store (store.execute c st).1 ≡ rows store st
  pub committed :
      (st : store.State)
      → (store.commit st).0 ≡ true
      → rows store (store.commit st).1 ≡ store.view st
  pub rolled_back :
      (st : store.State)
      → (store.rollback st).0 ≡ true
      → rows store (store.rollback st).1 ≡ rows store st
  pub friends_meet : (q : FriendQuery) (st : store.State) → All (Meets q) (store.friends_where q st)
  pub rows_by_id : (k : ℕ) (st : store.State) → All (λ u. u.id ≡ k) (store.users_by_id k st)

-- The ids of a list of changes, from that of the first and those of the others.
abbrev prepend : ℕ → (ℕ → ℕ) → ℕ → ℕ
prepend k fresh zero = k
prepend k fresh (suc n) = fresh n

apply_changes-cons :
    (k : ℕ) (fresh : ℕ → ℕ) (c : Change) (cs : List Change) (r m : List User × List Friendship)
    (o : Option (List User × List Friendship))
    → apply_changes (λ n. k) (c ∷ []) r ≡ some m
    → apply_changes fresh cs m ≡ o
    → apply_changes (prepend k fresh) (c ∷ cs) r ≡ o
unfolding apply_changes
apply_changes-cons k fresh (add_user u) cs (us, fs) m o e f =
    ap (apply_changes fresh cs) (some_injective _ m e) ∙ f
apply_changes-cons k fresh (delete_user u) cs (us, fs) m o e f =
    ap (apply_changes fresh cs) (some_injective _ m e) ∙ f
apply_changes-cons k fresh (add_friendship u) cs (us, fs) m o e f =
    ap (apply_changes fresh cs) (some_injective _ m e) ∙ f
apply_changes-cons k fresh (delete_friendship u) cs (us, fs) m o e f =
    ap (apply_changes fresh cs) (some_injective _ m e) ∙ f
apply_changes-cons k fresh (modify_user old new) cs (us, fs) m o e f =
    elim (Option-cases (replace_user old new us)) [
      | inl missing ↦ absurd (none≢some m (rw (missing, apply_changes) at e))
      | inr (vs, found) ↦
          rw (found, apply_changes)
            (ap (apply_changes fresh cs) (some_injective _ m (rw (found, apply_changes) at e)) ∙ f)
    ]
apply_changes-cons k fresh (modify_friendship old new) cs (us, fs) m o e f =
    elim (Option-cases (replace_friendship old new fs)) [
      | inl missing ↦ absurd (none≢some m (rw (missing, apply_changes) at e))
      | inr (gs, found) ↦
          rw (found, apply_changes)
            (ap (apply_changes fresh cs) (some_injective _ m (rw (found, apply_changes) at e)) ∙ f)
    ]

module _ (store : Store) (laws : StoreLaws store) where
  -- The statements change no committed row; if all are done, the transaction sees them all.
  abbrev Flushed : List Change → store.State → Outcome × store.State → Type 0
  Flushed cs st (saved, st') =
      (rows store st' ≡ rows store st)
      × ((fresh : ℕ → ℕ) × (apply_changes fresh cs (store.view st) ≡ some (store.view st')))
  Flushed cs st (conflict, st') = rows store st' ≡ rows store st
  Flushed cs st (failed, st') = rows store st' ≡ rows store st

  flush_all-Flushed : (cs : List Change) (st : store.State) → Flushed cs st (flush_all store cs st)
  unfolding flush_all
  flush_all-Flushed [] st = (refl, ((λ n. 0), unfold apply_changes in refl))
  flush_all-Flushed (c ∷ cs) st =
      one_turn (store.execute c st).0 refl (flush_all store cs (store.execute c st).1)
        (flush_all-Flushed cs (store.execute c st).1)
    where
      one_turn :
          (e : Executed)
          → (store.execute c st).0 ≡ e
          → (r : Outcome × store.State) → Flushed cs (store.execute c st).1 r
          → Flushed (c ∷ cs) st (elim e as (λ _. Outcome × store.State) [
            | executed ↦ r
            | no_row ↦ (conflict, (store.execute c st).1)
            | not_executed ↦ (failed, (store.execute c st).1)
          ])
      one_turn executed e (saved, st') (kept, (fresh, applied)) =
          let (k, one) = laws.changes_view c st e in
          (
            kept ∙ laws.keeps_rows c st,
            (prepend k fresh, apply_changes-cons k fresh c cs (store.view st) _ _ one applied),
          )
      one_turn executed e (conflict, st') kept = kept ∙ laws.keeps_rows c st
      one_turn executed e (failed, st') kept = kept ∙ laws.keeps_rows c st
      one_turn no_row e r f = laws.keeps_rows c st
      one_turn not_executed e r f = laws.keeps_rows c st

  -- All of the changes are applied to the committed rows, or the rows stay as they are.
  abbrev Saves : List Change → store.State → Outcome × store.State → Type 0
  Saves cs st (saved, st') =
      (fresh : ℕ → ℕ) × (apply_changes fresh cs (rows store st) ≡ some (rows store st'))
  Saves cs st (conflict, st') = rows store st' ≡ rows store st
  Saves cs st (failed, st') = rows store st' ≡ rows store st

  save-Saves : (cs : List Change) (st : store.State) → Saves cs st (save store cs st)
  unfolding save
  save-Saves cs st =
      ends (flush_all store cs (store.begin_work st).1)
        (flush_all-Flushed cs (store.begin_work st).1)
    where
      opened_view :
          (store.view (store.begin_work st).1 ≡ rows store st)
          × (rows store (store.begin_work st).1 ≡ rows store st)
      opened_view = laws.begun st (laws.begins st)

      ends :
          (r : Outcome × store.State)
          → Flushed cs (store.begin_work st).1 r
          → Saves cs st
              (if is_saved r.0 then (r.0, (store.commit r.1).1) else (r.0, (store.rollback r.1).1))
      ends (saved, st') (kept, (fresh, applied)) = (
        fresh,
        ap (apply_changes fresh cs) (sym opened_view.0)
            ∙ applied
            ∙ ap some (sym (laws.committed st' (laws.commits st'))),
      )
      ends (conflict, st') kept = laws.rolled_back st' (laws.rolls_back st') ∙ kept ∙ opened_view.1
      ends (failed, st') kept = laws.rolled_back st' (laws.rolls_back st') ∙ kept ∙ opened_view.1

  -- A save that says so has applied all of its changes.
  pub save-saved :
      (cs : List Change) (st : store.State)
      → (save store cs st).0 ≡ saved
      → (fresh : ℕ → ℕ) × (apply_changes fresh cs (rows store st)
          ≡ some (rows store (save store cs st).1))
  save-saved cs st e = seen (save store cs st) (save-Saves cs st) e
    where
      seen :
          (r : Outcome × store.State)
          → Saves cs st r
          → r.0 ≡ saved
          → (fresh : ℕ → ℕ) × (apply_changes fresh cs (rows store st) ≡ some (rows store r.1))
      seen (saved, st') s e = s
      seen (conflict, st') s e = absurd cc
      seen (failed, st') s e = absurd cc

  -- And one that does not has kept the rows.
  pub save-unsaved :
      (cs : List Change) (st : store.State)
      → (save store cs st).0 ≢ saved
      → (store.users (save store cs st).1 ≡ store.users st)
        × (store.friendships (save store cs st).1 ≡ store.friendships st)
  save-unsaved cs st n = seen (save store cs st) (save-Saves cs st) n
    where
      seen :
          (r : Outcome × store.State)
          → Saves cs st r
          → r.0 ≢ saved
          → (store.users r.1 ≡ store.users st) × (store.friendships r.1 ≡ store.friendships st)
      seen (saved, st') s n = absurd (n refl)
      seen (conflict, st') s n = (ap (λ x. x.0) s, ap (λ x. x.1) s)
      seen (failed, st') s n = (ap (λ x. x.0) s, ap (λ x. x.1) s)
