-- ===== src/Orm/Context/Transaction.antt =====
-- `SaveChanges` (Server/DB/ORM/DBContext.h) as one transaction.
use asio_chat_server.Common.{
  ℕ, ◌≡◌, refl, sym, subst, ap, ◌∙◌, ◌⊎◌, Bool, true, false, List, [], ◌∷◌, ◌++◌, if_of_true,
  if_of_false, Bool-cases, Option-cases, inl, inr,
}
use asio_chat_server.Orm.Meta.{DbValue, EntityMeta}
use asio_chat_server.Orm.Connection.{Odbc, succeeded, begin, commit, rollback}
use asio_chat_server.Orm.Connection.Logs.{Logs, LogsLaws, commit-ended, rollback-ended}
use asio_chat_server.Orm.Context.{
  DbOp, ChangeEntry, added, modified, deleted, unchanged, DbContext, find_in_identity_map,
}
use asio_chat_server.Orm.Context.Save.{
  scan, Flushed, flush, opened, apply_op, apply_entries, apply_change, forget, close_saved,
  close_failed, save_changes,
}
use asio_chat_server.Orm.Context.Reload.{reload_all-Same}
use asio_chat_server.Orm.Context.Atomic.{asked, flush-Leaves}

module _ (odbc : Odbc) (meta_of : ℕ → EntityMeta) where
  forget-connection :
      (key : ℕ × DbValue) (ctx : DbContext odbc)
      → ((forget odbc meta_of key ctx).connection ≡ ctx.connection)
        × ((forget odbc meta_of key ctx).in_transaction ≡ ctx.in_transaction)
  unfolding forget
  forget-connection key ctx = elim (Option-cases (find_in_identity_map key ctx.identity_map)) [
    | inl e ↦ rw (e, forget) (refl, refl)
    | inr (o, e) ↦ rw (e, forget) (refl, refl)
  ]

  apply_op-connection :
      (op : DbOp) (c : ChangeEntry) (ctx : DbContext odbc)
      → ((apply_op odbc meta_of op c ctx).connection ≡ ctx.connection)
        × ((apply_op odbc meta_of op c ctx).in_transaction ≡ ctx.in_transaction)
  apply_op-connection added c ctx = (refl, refl)
  apply_op-connection modified c ctx = (refl, refl)
  apply_op-connection deleted c ctx = forget-connection _ ctx
  apply_op-connection unchanged c ctx = (refl, refl)

  apply_entries-connection :
      (cs : List ChangeEntry) (ctx : DbContext odbc)
      → ((apply_entries odbc meta_of cs ctx).connection ≡ ctx.connection)
        × ((apply_entries odbc meta_of cs ctx).in_transaction ≡ ctx.in_transaction)
  unfolding apply_entries
  apply_entries-connection [] ctx = (refl, refl)
  apply_entries-connection (c ∷ cs) ctx =
      let (same, closed) = apply_entries-connection cs (apply_op odbc meta_of c.op c ctx) in
      let (same', closed') = apply_op-connection c.op c ctx in (same ∙ same', closed ∙ closed')

  module _ (logs : Logs odbc) (laws : LogsLaws odbc logs) where
    opened-manual :
        (ctx : DbContext odbc)
        → (ctx.in_transaction ≡ true → logs.manual ctx.connection ≡ true)
        → (ctx.in_transaction ≡ false → (begin odbc ctx.connection).0 ≡ true)
        → (logs.committed (opened odbc meta_of ctx) ≡ logs.committed ctx.connection)
          × (logs.pending (opened odbc meta_of ctx) ≡ logs.pending ctx.connection)
          × (logs.manual (opened odbc meta_of ctx) ≡ true)
    unfolding begin
    opened-manual ctx opens begins = elim (Bool-cases ctx.in_transaction) [
      | inl e ↦ rw (e, opened) (refl, refl, opens e)
      | inr e ↦ rw (e, opened) (laws.switched_off ctx.connection (begins e))
    ]

    -- What a transaction of the changes promises.
    pub record Transacted (ctx : DbContext odbc) (saved : Bool) (after : DbContext odbc)
        : Type 0 where
      pub all_or_none :
          ((saved ≡ true)
            × (logs.committed after.connection
                ≡ logs.committed ctx.connection
                  ++ (logs.pending ctx.connection
                      ++ asked odbc meta_of ctx.heap (scan ctx.heap ctx.identity_map ctx.changes)))
            × (after.changes ≡ []))
          ⊎ ((saved ≡ false) × (logs.committed after.connection ≡ logs.committed ctx.connection))
      pub none_open : (logs.pending after.connection ≡ []) × (after.in_transaction ≡ false)

    abbrev run : DbContext odbc → Flushed odbc meta_of
    run ctx =
        flush odbc meta_of ctx.heap (scan ctx.heap ctx.identity_map ctx.changes)
          (opened odbc meta_of ctx)

    save_changes-ok :
        (ctx : DbContext odbc)
        → (run ctx).all_ok ≡ true
        → save_changes odbc meta_of ctx ≡ (true, close_saved odbc meta_of ctx (run ctx))
    unfolding save_changes
    save_changes-ok ctx ok = if_of_true _ _ ok

    save_changes-failed :
        (ctx : DbContext odbc)
        → (run ctx).all_ok ≡ false
        → save_changes odbc meta_of ctx ≡ (false, close_failed odbc meta_of ctx (run ctx))
    unfolding save_changes
    save_changes-failed ctx failed = if_of_false _ _ failed

    abbrev Ends : Type 0
    Ends = (committing : Bool) (s : odbc.State) → succeeded (odbc.end_tran committing s).0 ≡ true

    close_saved-Transacted :
        (ctx : DbContext odbc) (r : Flushed odbc meta_of)
        → logs.committed r.after ≡ logs.committed ctx.connection
        → logs.pending r.after
          ≡ logs.pending ctx.connection
            ++ asked odbc meta_of ctx.heap (scan ctx.heap ctx.identity_map ctx.changes)
        → Ends
        → Transacted ctx true (close_saved odbc meta_of ctx r)
    unfolding close_saved apply_change
    close_saved-Transacted ctx r held pen ends =
        let (held', pen') = commit-ended odbc logs laws r.after (ends true r.after) in
        let (same, closed) = apply_entries-connection r.kept (record ctx {
          changes = r.kept;
          in_transaction = false;
          conflict_count = 0;
          connection = (commit odbc r.after).1;
        }) in
        record {
          all_or_none = inl (
            refl,
            ap logs.committed same
                ∙ held'
                ∙ ap (λ l. l ++ logs.pending r.after) held
                ∙ ap (◌++◌ (logs.committed ctx.connection)) pen,
            refl,
          );
          none_open = (ap logs.pending same ∙ pen', closed);
        }

    close_failed-Transacted :
        (ctx : DbContext odbc) (r : Flushed odbc meta_of)
        → logs.committed r.after ≡ logs.committed ctx.connection
        → Ends
        → Transacted ctx false (close_failed odbc meta_of ctx r)
    unfolding close_failed
    close_failed-Transacted ctx r held ends =
        let (held', pen') = rollback-ended odbc logs laws r.after (ends false r.after) in
        let same =
          reload_all-Same odbc meta_of logs laws (ctx.occ_changes ++ r.conflicts) ctx.heap
            (rollback odbc r.after).1 in
        record {
          all_or_none = inr (refl, same.same_committed ∙ held' ∙ held);
          none_open = (same.same_pending ∙ pen', refl);
        }

    -- `SaveChanges` is one transaction, if it can open one or one is open and the server ends it when
    -- told to: with true, the statements of the transaction and of all the changes are committed, in
    -- order; with false, none is. Either way no transaction is left open.
    pub save_changes-Transacted :
        (ctx : DbContext odbc)
        → (ctx.in_transaction ≡ true → logs.manual ctx.connection ≡ true)
        → (ctx.in_transaction ≡ false → (begin odbc ctx.connection).0 ≡ true)
        → ((committing : Bool) (s : odbc.State) → succeeded (odbc.end_tran committing s).0 ≡ true)
        → Transacted ctx (save_changes odbc meta_of ctx).0 (save_changes odbc meta_of ctx).1
    save_changes-Transacted ctx opens begins ends =
        let changes = scan ctx.heap ctx.identity_map ctx.changes in
        let (held, pen, man) = opened-manual ctx opens begins in
        let r = flush odbc meta_of ctx.heap changes (opened odbc meta_of ctx) in
        let (held', pen') =
          flush-Leaves odbc meta_of ctx.heap logs laws changes (opened odbc meta_of ctx) man in
        elim (Bool-cases r.all_ok) [
          | inl ok ↦
              subst (λ (o : Bool × DbContext odbc). Transacted ctx o.0 o.1)
                (sym (save_changes-ok ctx ok))
                (close_saved-Transacted ctx r (held' ∙ held)
                  (pen' ok ∙ ap (λ l. l ++ asked odbc meta_of ctx.heap changes) pen) ends)
          | inr failed ↦
              subst (λ (o : Bool × DbContext odbc). Transacted ctx o.0 o.1)
                (sym (save_changes-failed ctx failed))
                (close_failed-Transacted ctx r (held' ∙ held) ends)
        ]
