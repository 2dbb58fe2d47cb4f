-- ===== src/Orm/Context/Calls.antt =====
-- The calls on a `DbContext` (Server/DB/ORM/DBContext.h), and its changes after them.
use asio_chat_server.Common.{
  ℕ, ◌≡◌, refl, sym, subst, inl, inr, Bool, false, not, ◌&&◌, some, List, [], ◌∷◌, if_of_true,
  if_of_false, if_both, Bool-cases, Option-cases,
}
use asio_chat_server.Orm.Meta.{DbValue, EntityMeta, Object}
use asio_chat_server.Orm.Connection.{Odbc, execute, fetch, get_row_count}
use asio_chat_server.Orm.Context.{
  ChangeEntry, added, modified, deleted, DbContext, new_entry, is_added, has_change_for,
  remove_changes, cancel_added, add, delete, update_object, begin_transaction, has_int_key,
  statement,
}
use asio_chat_server.Orm.Sql.Query.{DbSet}
use asio_chat_server.Orm.Context.Query.{Loading, to_list}
use asio_chat_server.Orm.Context.Save.{
  scan, is_modified, is_zero, Turn, passed, failed, conflicted, fetch_key, run_statement, turn,
  flush, opened, close_saved, close_failed, apply_change, save_changes,
}
use asio_chat_server.Orm.Context.Pending.{
  Distinct, Distinct-snoc, PartOf, PartOf-Distinct, PartOf-skip, PartOf-refl, remove_changes-PartOf,
  remove_changes-absent, cancel_added-PartOf, scan-Distinct,
}

module _ (odbc : Odbc) (meta_of : ℕ → EntityMeta) where
  abbrev SameObj : ChangeEntry → Turn odbc meta_of → Type 0
  SameObj c (passed c' s) = c'.obj ≡ c.obj
  SameObj c _ = Unit

  record KeepsObj (c : ChangeEntry) (t : Turn odbc meta_of) : Type 0 where
    keeps : SameObj c t

  fetch_key-KeepsObj : (c : ChangeEntry) (s : odbc.State) → KeepsObj c (fetch_key odbc meta_of c s)
  fetch_key-KeepsObj c s =
      if_both (KeepsObj c) (fetch odbc s).0 _ _ (record { keeps = refl }) (record { keeps = tt })

  run_statement-KeepsObj :
      (c : ChangeEntry) (w : List ℕ × List DbValue) (s : odbc.State)
      → KeepsObj c (run_statement odbc meta_of c w s)
  unfolding run_statement
  run_statement-KeepsObj c (sql, values) s =
      let s' = (execute odbc sql values s).1 in
      if_both (KeepsObj c) (not (execute odbc sql values s).0) _ _ (record { keeps = tt })
        (if_both (KeepsObj c) (is_modified c.op && is_zero (get_row_count odbc s')) _ _
          (record { keeps = tt })
          (if_both (KeepsObj c) (is_added c.op && has_int_key (meta_of c.type_index)) _ _
            (fetch_key-KeepsObj c s') (record { keeps = refl })))

  turn-KeepsObj :
      (heap : ℕ → Object) (c : ChangeEntry) (s : odbc.State)
      → KeepsObj c (turn odbc meta_of heap c s)
  unfolding turn
  turn-KeepsObj heap c s =
      elim (Option-cases (statement (meta_of c.type_index) c.op (heap c.obj))) [
        | inl e ↦ rw (e, turn) (record { keeps = refl })
        | inr (w, e) ↦ rw (e, turn) (run_statement-KeepsObj c w s)
      ]

  flush-turn-PartOf :
      (heap : ℕ → Object) (c : ChangeEntry) (cs : List ChangeEntry) (s : odbc.State)
      (t : Turn odbc meta_of)
      → ((s' : odbc.State) → PartOf (flush odbc meta_of heap cs s').kept cs)
      → turn odbc meta_of heap c s ≡ t
      → KeepsObj c t
      → PartOf (flush odbc meta_of heap (c ∷ cs) s).kept (c ∷ cs)
  unfolding flush
  flush-turn-PartOf heap c cs s (passed c' s') ih e k = rw (e, flush) (inl (k.keeps, ih s'))
  flush-turn-PartOf heap c cs s (failed s') ih e k = rw (e, flush) (PartOf-refl (c ∷ cs))
  flush-turn-PartOf heap c cs s (conflicted s') ih e k =
      rw (e, flush) (PartOf-skip cs cs c (PartOf-refl cs))

  flush-PartOf :
      (heap : ℕ → Object) (cs : List ChangeEntry) (s : odbc.State)
      → PartOf (flush odbc meta_of heap cs s).kept cs
  flush-PartOf heap [] s = unfold flush in tt
  flush-PartOf heap (c ∷ cs) s =
      flush-turn-PartOf heap c cs s (turn odbc meta_of heap c s) (flush-PartOf heap cs) refl
        (turn-KeepsObj heap c s)

  save_changes-Distinct :
      (ctx : DbContext odbc)
      → Distinct ctx.changes
      → Distinct (save_changes odbc meta_of ctx).1.changes
  unfolding save_changes close_saved close_failed apply_change
  save_changes-Distinct ctx d =
      let changes = scan ctx.heap ctx.identity_map ctx.changes in
      let r = flush odbc meta_of ctx.heap changes (opened odbc meta_of ctx) in
      if_both (λ (r : Bool × DbContext odbc). Distinct r.1.changes) r.all_ok _ _ tt
        (PartOf-Distinct r.kept changes (flush-PartOf ctx.heap changes (opened odbc meta_of ctx))
          (scan-Distinct odbc ctx.heap ctx.identity_map ctx.changes d))

  -- What a query works on, with the number of the next object, and the context after it.
  abbrev pub loading : ℕ → DbContext odbc → Loading
  loading next ctx = record {
    identities = ctx.identity_map;
    objects = ctx.heap;
    next = next;
    bound = [];
  }

  abbrev pub loaded : odbc.State → Loading → DbContext odbc → DbContext odbc
  loaded s l ctx = record ctx { identity_map = l.identities; heap = l.objects; connection = s }

  -- A call of the program on the context, the queries that end among them, or a write to objects. An
  -- object that is added is new, with no pending change: the caller held it by a `unique_ptr`.
  pub data Call : DbContext odbc → DbContext odbc → Type 0 where
    adds :
        (t o : ℕ) (ctx : DbContext odbc)
        → has_change_for o ctx.changes ≡ false
        → Call ctx (add t o ctx)
    deletes : (t o : ℕ) (ctx : DbContext odbc) → Call ctx (delete t o ctx)
    updates : (t o : ℕ) (ctx : DbContext odbc) → Call ctx (update_object t o ctx)
    lists :
        (blank : ℕ → Object) (fuel t next : ℕ) (q : DbSet) (ctx : DbContext odbc) (os : List ℕ)
        (s : odbc.State) (l : Loading)
        → to_list meta_of blank odbc fuel t q ctx.connection (loading next ctx) ≡ some (os, (s, l))
        → Call ctx (loaded s l ctx)
    begins : (ctx : DbContext odbc) → Call ctx (begin_transaction ctx).1
    saves : (ctx : DbContext odbc) → Call ctx (save_changes odbc meta_of ctx).1
    writes : (heap : ℕ → Object) (ctx : DbContext odbc) → Call ctx (record ctx { heap = heap })

  pub data Calls : DbContext odbc → DbContext odbc → Type 0 where
    no_call : (ctx : DbContext odbc) → Calls ctx ctx
    next_call : (a b c : DbContext odbc) → Call a b → Calls b c → Calls a c

  Call-Distinct : (a b : DbContext odbc) → Call a b → Distinct a.changes → Distinct b.changes
  unfolding add delete update_object begin_transaction
  Call-Distinct _ _ (adds t o ctx fresh) d = Distinct-snoc ctx.changes (new_entry added t o) d fresh
  Call-Distinct _ _ (deletes t o ctx) d =
      let (found, kept) = cancel_added o ctx.changes in
      let less = PartOf-Distinct kept ctx.changes (cancel_added-PartOf o ctx.changes) d in
      if_both (λ (r : DbContext odbc). Distinct r.changes) found _ _ less
        (Distinct-snoc (remove_changes o kept) (new_entry deleted t o)
          (PartOf-Distinct (remove_changes o kept) kept (remove_changes-PartOf o kept) less)
          (remove_changes-absent o kept))
  Call-Distinct _ _ (updates t o ctx) d = elim (Bool-cases (has_change_for o ctx.changes)) [
    | inl there ↦ subst (λ (r : DbContext odbc). Distinct r.changes) (sym (if_of_true _ _ there)) d
    | inr fresh ↦
        subst (λ (r : DbContext odbc). Distinct r.changes) (sym (if_of_false _ _ fresh))
          (Distinct-snoc ctx.changes (new_entry modified t o) d fresh)
  ]
  Call-Distinct _ _ (lists blank fuel t next q ctx os s l e) d = d
  Call-Distinct _ _ (begins ctx) d =
      if_both (λ (r : Bool × DbContext odbc). Distinct r.1.changes) ctx.in_transaction _ _ d d
  Call-Distinct _ _ (saves ctx) d = save_changes-Distinct ctx d
  Call-Distinct _ _ (writes heap ctx) d = d

  -- Whatever is called, queries, saves and writes to objects included, no object ever has two pending
  -- changes, if none had at first and each object that `Add` is given is new, with no pending change.
  pub Calls-Distinct : (a b : DbContext odbc) → Calls a b → Distinct a.changes → Distinct b.changes
  Calls-Distinct a _ (no_call _) d = d
  Calls-Distinct a b (next_call _ m _ c cs) d = Calls-Distinct m b cs (Call-Distinct a m c d)
