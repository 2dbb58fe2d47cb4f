-- ===== src/Orm/Connection/Logs.antt =====
-- What the ODBC library and the server behind it are relied on for when Server/DB/ORM/DBConnection.cpp
-- opens and ends a transaction: which statements of this connection others can see.
use asio_chat_server.Common.{
  ℕ, ◌≡◌, ◌∙◌, Bool, true, false, List, [], ◌∷◌, ◌++◌, bytes_eq, take, codes, if◌then◌else◌,
}
use mathlib.Core.List.{append-nil}
use asio_chat_server.Orm.Meta.{DbValue}
use asio_chat_server.Orm.Connection.{
  Odbc, succeeded, execute, restore_autocommit, finish, commit, rollback,
}

abbrev pub is_select : List ℕ → Bool
is_select sql = bytes_eq (take 6 sql) (codes "SELECT")

-- The statements that wrote, with their values: those that are committed, and those of the open
-- transaction. `manual` is autocommit switched off.
pub record Logs (odbc : Odbc) : Type 0 where
  pub committed : odbc.State → List (List ℕ × List DbValue)
  pub pending : odbc.State → List (List ℕ × List DbValue)
  pub manual : odbc.State → Bool

pub record Same {odbc : Odbc} (logs : Logs odbc) (s s' : odbc.State) : Type 0 where
  pub same_committed : logs.committed s' ≡ logs.committed s
  pub same_pending : logs.pending s' ≡ logs.pending s
  pub same_manual : logs.manual s' ≡ logs.manual s

pub record LogsLaws (odbc : Odbc) (logs : Logs odbc) : Type 0 where
  pub executed :
      (sql : List ℕ) (values : List DbValue) (s : odbc.State)
      → logs.manual s ≡ true
      → (execute odbc sql values s).0 ≡ true
      → is_select sql ≡ false
      → (logs.pending (execute odbc sql values s).1 ≡ logs.pending s ++ (sql, values) ∷ [])
        × (logs.manual (execute odbc sql values s).1 ≡ true)
  -- Nothing is committed while autocommit is off, not even by a statement that fails.
  pub held_back :
      (sql : List ℕ) (values : List DbValue) (s : odbc.State)
      → logs.manual s ≡ true
      → logs.committed (execute odbc sql values s).1 ≡ logs.committed s
  -- A query, a fetch and the release of the statement write nothing.
  pub queried :
      (sql : List ℕ) (values : List DbValue) (s : odbc.State)
      → is_select sql ≡ true
      → Same logs s (execute odbc sql values s).1
  pub fetched : (s : odbc.State) → Same logs s (odbc.fetch_row s).1
  pub freed : (s : odbc.State) → Same logs s (odbc.free_statement s)
  pub switched_off :
      (s : odbc.State)
      → succeeded (odbc.set_autocommit false s).0 ≡ true
      → (logs.committed (odbc.set_autocommit false s).1 ≡ logs.committed s)
        × (logs.pending (odbc.set_autocommit false s).1 ≡ logs.pending s)
        × (logs.manual (odbc.set_autocommit false s).1 ≡ true)
  pub ended :
      (committing : Bool) (s : odbc.State)
      → succeeded (odbc.end_tran committing s).0 ≡ true
      → (logs.committed (odbc.end_tran committing s).1
          ≡ logs.committed s ++ (if committing then logs.pending s else []))
        × (logs.pending (odbc.end_tran committing s).1 ≡ [])
  -- Autocommit switched on commits a transaction that is open.
  pub switched_on :
      (s : odbc.State)
      → logs.pending s ≡ []
      → (logs.committed (odbc.set_autocommit true s).1 ≡ logs.committed s)
        × (logs.pending (odbc.set_autocommit true s).1 ≡ [])

module _ (odbc : Odbc) (logs : Logs odbc) (laws : LogsLaws odbc logs) where
  pub Same-trans : (s s' s'' : odbc.State) → Same logs s s' → Same logs s' s'' → Same logs s s''
  Same-trans s s' s'' p q = record {
    same_committed = q.same_committed ∙ p.same_committed;
    same_pending = q.same_pending ∙ p.same_pending;
    same_manual = q.same_manual ∙ p.same_manual;
  }

  finish-ended :
      (committing : Bool) (s : odbc.State)
      → succeeded (odbc.end_tran committing s).0 ≡ true
      → (logs.committed (finish odbc committing s).1
          ≡ logs.committed s ++ (if committing then logs.pending s else []))
        × (logs.pending (finish odbc committing s).1 ≡ [])
  unfolding restore_autocommit
  finish-ended committing s e =
      let (c, p) = laws.ended committing s e in
      let (c', p') = laws.switched_on (odbc.end_tran committing s).1 p in
      rw (e, finish) (c' ∙ c, p')

  pub commit-ended :
      (s : odbc.State)
      → succeeded (odbc.end_tran true s).0 ≡ true
      → (logs.committed (commit odbc s).1 ≡ logs.committed s ++ logs.pending s)
        × (logs.pending (commit odbc s).1 ≡ [])
  unfolding commit
  commit-ended s e = finish-ended true s e

  pub rollback-ended :
      (s : odbc.State)
      → succeeded (odbc.end_tran false s).0 ≡ true
      → (logs.committed (rollback odbc s).1 ≡ logs.committed s)
        × (logs.pending (rollback odbc s).1 ≡ [])
  unfolding rollback
  rollback-ended s e = let (c, p) = finish-ended false s e in (c ∙ append-nil (logs.committed s), p)
