-- ===== src/Orm/Context/Save.antt =====
-- `SaveChanges` and `ApplyChange` of Server/DB/ORM/DBContext.h. The keys of the registered types are
-- `INT` columns, as a new key is written back only for those.
use asio_chat_server.Common.{
  ℕ, zero, suc, Bool, true, false, not, ◌&&◌, ◌||◌, Option, none, some, List, [], ◌∷◌, ◌++◌,
  if◌then◌else◌, update, codes, length,
}
use asio_chat_server.Common.Int.{ℤ, pos}
use asio_chat_server.Orm.Meta.{
  DbValue, int64, no_tag, FieldMeta, EntityMeta, Object, read, write, clear_all,
}
use asio_chat_server.Orm.Sql.Query.{DbSet, select_sql}
use asio_chat_server.Orm.Connection.{
  Odbc, execute, fetch, get_row_count, unbind, begin, commit, rollback,
}
use asio_chat_server.Orm.Context.{
  DbOp, added, modified, deleted, unchanged, ChangeEntry, IdentityMap, DbContext, new_entry,
  is_added, has_change_for, find_in_identity_map, register_in_identity_map, erase_from_identity_map,
  key_place, has_int_key, statement,
}

abbrev pub any_dirty : Object → Bool
any_dirty [] = false
any_dirty (p ∷ ps) = p.dirty || any_dirty ps

-- The scan of the identity map for objects that were written.
unfoldable pub scan : (ℕ → Object) → IdentityMap → List ChangeEntry → List ChangeEntry
scan heap [] changes = changes
scan heap (((t, pk), o) ∷ m) changes =
    if has_change_for o changes || not (any_dirty (heap o))
    then scan heap m changes
    else scan heap m (changes ++ new_entry modified t o ∷ [])

abbrev pub is_modified : DbOp → Bool
is_modified modified = true
is_modified _ = false

abbrev pub is_zero : ℤ → Bool
is_zero (pos zero) = true
is_zero _ = false

-- The id that the first column has: a NULL leaves the 0 it was set to.
abbrev pub first_id : List (Option DbValue) → DbValue
first_id (some (int64 z) ∷ row) = int64 z
first_id _ = int64 (pos 0)

-- A row of the table into the object; a NULL is skipped.
abbrev pub write_row : ℕ → List FieldMeta → List (Option DbValue) → Object → Object
write_row i [] row o = o
write_row i (f ∷ fs) [] o = o
write_row i (f ∷ fs) (none ∷ row) o = write_row (suc i) fs row o
write_row i (f ∷ fs) (some v ∷ row) o =
    write_row (suc i) fs row (elim f.data_type [ no_tag ↦ o | _ ↦ write i v o ])

abbrev pub key_query : EntityMeta → DbValue → DbSet
key_query meta pk = record {
  conditions = record { column = meta.primary_key_name; op = codes "="; value = pk } ∷ [];
  includes = [];
  table_hint = [];
  order_column = [];
  desc = false;
  top_count = pos 0;
}

module _ (odbc : Odbc) (meta_of : ℕ → EntityMeta) where
  -- How one turn of the loop over the changes ends: on to the next, or out of the loop.
  pub data Turn : Type 0 where
    passed : ChangeEntry → odbc.State → Turn
    failed : odbc.State → Turn
    conflicted : odbc.State → Turn

  abbrev pub fetch_key : ChangeEntry → odbc.State → Turn
  fetch_key c s =
      let (fetched, s') = fetch odbc s in
      if fetched
      then passed (record c { new_pk = first_id (odbc.row s') }) (unbind odbc s')
      else failed (unbind odbc s')

  unfoldable pub run_statement : ChangeEntry → List ℕ × List DbValue → odbc.State → Turn
  run_statement c (sql, values) s =
      let (done, s') = execute odbc sql values s in
      if not done
      then failed (unbind odbc s')
      else if is_modified c.op && is_zero (get_row_count odbc s')
      then conflicted (unbind odbc s')
      else if is_added c.op && has_int_key (meta_of c.type_index)
      then fetch_key c s'
      else passed c (unbind odbc s')

  unfoldable pub turn : (ℕ → Object) → ChangeEntry → odbc.State → Turn
  unfolding run_statement statement
  turn heap c s = elim (statement (meta_of c.type_index) c.op (heap c.obj)) [
    | none ↦ passed c s
    | some sql ↦ run_statement c sql s
  ]

  -- Where the loop stopped: whether all went well, the changes that are kept, and the entry that met
  -- a conflict.
  pub record Flushed : Type 0 where
    pub all_ok : Bool
    pub kept : List ChangeEntry
    pub conflicts : List ChangeEntry
    pub after : odbc.State

  unfoldable pub flush : (ℕ → Object) → List ChangeEntry → odbc.State → Flushed
  unfolding turn
  flush heap [] s = record { all_ok = true; kept = []; conflicts = []; after = s }
  flush heap (c ∷ cs) s = elim (turn heap c s) [
    | passed c' s' ↦ (let rest = flush heap cs s' in record rest { kept = c' ∷ rest.kept })
    | failed s' ↦ record { all_ok = false; kept = c ∷ cs; conflicts = []; after = s' }
    | conflicted s' ↦ record { all_ok = false; kept = cs; conflicts = c ∷ []; after = s' }
  ]

  unfoldable pub forget : ℕ × DbValue → DbContext odbc → DbContext odbc
  forget key ctx = elim (find_in_identity_map key ctx.identity_map) [
    | none ↦ ctx
    | some p ↦ record ctx {
      identity_map = erase_from_identity_map key ctx.identity_map;
      destroyed = p ∷ ctx.destroyed;
    }
  ]

  -- The object of one change after the commit.
  abbrev pub apply_op : DbOp → ChangeEntry → DbContext odbc → DbContext odbc
  apply_op added c ctx = record ctx {
    identity_map = register_in_identity_map (c.type_index, c.new_pk) c.obj ctx.identity_map;
    heap =
        update ctx.heap c.obj
          (clear_all (write (key_place (meta_of c.type_index)) c.new_pk (ctx.heap c.obj)));
  }
  apply_op modified c ctx = record ctx { heap = update ctx.heap c.obj (clear_all (ctx.heap c.obj)) }
  apply_op deleted c ctx =
      forget (c.type_index, read (ctx.heap c.obj) (key_place (meta_of c.type_index))) ctx
  apply_op unchanged c ctx = ctx

  unfoldable pub apply_entries : List ChangeEntry → DbContext odbc → DbContext odbc
  apply_entries [] ctx = ctx
  apply_entries (c ∷ cs) ctx = apply_entries cs (apply_op c.op c ctx)

  unfoldable pub apply_change : DbContext odbc → DbContext odbc
  unfolding apply_entries
  apply_change ctx = record (apply_entries ctx.changes ctx) { changes = [] }

  -- After a conflict: the object is read again.
  unfoldable pub read_again :
      ChangeEntry → List ℕ → DbValue → (ℕ → Object) × odbc.State → (ℕ → Object) × odbc.State
  read_again c sql pk (heap, s) =
      let (done, s1) = execute odbc sql (pk ∷ []) s in
      let (fetched, s2) = fetch odbc s1 in
      let fields = (meta_of c.type_index).fields in
      if not done
      then (heap, unbind odbc s1)
      else if fetched
      then (update heap c.obj (write_row 0 fields (odbc.row s2) (heap c.obj)), unbind odbc s2)
      else (heap, unbind odbc s2)

  abbrev pub read_found :
      ChangeEntry
      → DbValue
      → Option (List ℕ)
      → (ℕ → Object) × odbc.State
      → (ℕ → Object) × odbc.State
  read_found c pk none hs = hs
  read_found c pk (some sql) hs = read_again c sql pk hs

  unfoldable pub reload : ChangeEntry → (ℕ → Object) × odbc.State → (ℕ → Object) × odbc.State
  unfolding read_again
  reload c (heap, s) =
      let meta = meta_of c.type_index in
      let pk = read (heap c.obj) (key_place meta) in
      read_found c pk (select_sql (λ t. some (meta_of t)) meta (key_query meta pk)) (heap, s)

  abbrev pub reload_all : List ChangeEntry → (ℕ → Object) × odbc.State → (ℕ → Object) × odbc.State
  reload_all [] hs = hs
  reload_all (c ∷ cs) hs = reload_all cs (reload c hs)

  -- The transaction is opened, unless `BeginTransaction` did; the answer of the call is dropped.
  abbrev pub opened : DbContext odbc → odbc.State
  opened ctx = if ctx.in_transaction then ctx.connection else (begin odbc ctx.connection).1

  unfoldable pub close_saved : DbContext odbc → Flushed → DbContext odbc
  unfolding commit apply_change
  close_saved ctx r = apply_change (record ctx {
    changes = r.kept;
    in_transaction = false;
    conflict_count = 0;
    connection = (commit odbc r.after).1;
  })

  unfoldable pub close_failed : DbContext odbc → Flushed → DbContext odbc
  unfolding rollback reload
  close_failed ctx r =
      let (heap, s) =
        reload_all (ctx.occ_changes ++ r.conflicts) (ctx.heap, (rollback odbc r.after).1) in
      record ctx {
        changes = r.kept;
        occ_changes = [];
        in_transaction = false;
        conflict_count = length r.conflicts;
        connection = s;
        heap = heap;
      }

  unfoldable pub save_changes : DbContext odbc → Bool × DbContext odbc
  unfolding scan flush close_saved close_failed
  save_changes ctx =
      let r = flush ctx.heap (scan ctx.heap ctx.identity_map ctx.changes) (opened ctx) in
      if r.all_ok then (true, close_saved ctx r) else (false, close_failed ctx r)
