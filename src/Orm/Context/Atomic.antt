-- ===== src/Orm/Context/Atomic.antt =====
-- The loop over the changes in `SaveChanges` (Server/DB/ORM/DBContext.h): the statements that it has
-- run in the open transaction.
use mathlib.Core.List.{append_assoc, append-nil}
use asio_chat_server.Common.{
  ℕ, ◌≡◌, refl, sym, subst, ap, ◌∙◌, true, false, not, ◌&&◌, none, some, List, [], ◌∷◌, ◌++◌,
  bytes_eq, if_of_true, if_of_false, some_injective, none≢some, Bool-cases, Option-cases, inl, inr,
  is_empty,
}
use asio_chat_server.Orm.Meta.{DbValue, EntityMeta, Object}
use asio_chat_server.Orm.Connection.{Odbc, execute, fetch, get_row_count}
use asio_chat_server.Orm.Connection.Logs.{is_select, Logs, LogsLaws, Same, Same-trans}
use asio_chat_server.Orm.Sql.{insert_sql, delete_sql, update_sql}
use asio_chat_server.Orm.Context.{
  DbOp, added, modified, deleted, unchanged, ChangeEntry, is_added, has_int_key, modified_places,
  statement,
}
use asio_chat_server.Orm.Context.Save.{
  is_modified, is_zero, Turn, passed, failed, conflicted, fetch_key, run_statement, turn, Flushed,
  flush,
}

first-writes :
    (a b : List ℕ × List DbValue) → some a ≡ some b → is_select a.0 ≡ false → is_select b.0 ≡ false
first-writes a b e w =
    subst (λ (p : List ℕ × List DbValue). is_select p.0 ≡ false) (some_injective a b e) w

-- A change is written, so none of its statements is a query.
statement-writes :
    (meta : EntityMeta) (op : DbOp) (o : Object) (sql : List ℕ) (values : List DbValue)
    → statement meta op o ≡ some (sql, values)
    → is_select sql ≡ false
unfolding statement insert_sql delete_sql update_sql bytes_eq
statement-writes meta added o sql values e = first-writes _ _ e refl
statement-writes meta deleted o sql values e = first-writes _ _ e refl
statement-writes meta modified o sql values e =
    elim (Bool-cases (is_empty (modified_places meta o 0 meta.fields))) [
      | inl none_dirty ↦ absurd (none≢some _ (sym (if_of_true _ _ none_dirty) ∙ e))
      | inr dirty ↦ first-writes _ _ (sym (if_of_false _ _ dirty) ∙ e) refl
    ]
statement-writes meta unchanged o sql values e = absurd (none≢some _ e)

module _ (odbc : Odbc) (meta_of : ℕ → EntityMeta) (heap : ℕ → Object) where
  -- The statements that a list of changes asks for, in order.
  abbrev pub asked : List ChangeEntry → List (List ℕ × List DbValue)
  asked [] = []
  asked (c ∷ cs) = elim (statement (meta_of c.type_index) c.op (heap c.obj)) [
    | none ↦ asked cs
    | some w ↦ w ∷ asked cs
  ]

  module _ (logs : Logs odbc) (laws : LogsLaws odbc logs) where
    abbrev Ran : odbc.State → List (List ℕ × List DbValue) → Turn odbc meta_of → Type 0
    Ran s ws (passed c s') =
        (logs.committed s' ≡ logs.committed s)
        × (logs.pending s' ≡ logs.pending s ++ ws)
        × (logs.manual s' ≡ true)
    Ran s ws (failed s') = logs.committed s' ≡ logs.committed s
    Ran s ws (conflicted s') = logs.committed s' ≡ logs.committed s

    Ran-Same :
        (ws : List (List ℕ × List DbValue)) (c : ChangeEntry) (s s' s'' : odbc.State)
        → Ran s ws (passed c s')
        → Same logs s' s''
        → Ran s ws (passed c s'')
    Ran-Same ws c s s' s'' (held, pen, man) q =
        (q.same_committed ∙ held, q.same_pending ∙ pen, q.same_manual ∙ man)

    fetch_key-Ran :
        (ws : List (List ℕ × List DbValue)) (c : ChangeEntry) (s s' : odbc.State)
        → Ran s ws (passed c s')
        → Ran s ws (fetch_key odbc meta_of c s')
    fetch_key-Ran ws c s s' r =
        let got = (odbc.fetch_row s').1 in
        let q =
          Same-trans odbc logs laws s' got (odbc.free_statement got) (laws.fetched s')
            (laws.freed got) in
        elim (Bool-cases (fetch odbc s').0) [
          | inl e ↦ subst (Ran s ws) (sym (if_of_true _ _ e)) (Ran-Same ws c s s' _ r q)
          | inr e ↦ subst (Ran s ws) (sym (if_of_false _ _ e)) (q.same_committed ∙ r.0)
        ]

    run_statement-Ran :
        (c : ChangeEntry) (sql : List ℕ) (values : List DbValue) (s : odbc.State)
        → logs.manual s ≡ true
        → is_select sql ≡ false
        → Ran s ((sql, values) ∷ []) (run_statement odbc meta_of c (sql, values) s)
    unfolding run_statement
    run_statement-Ran c sql values s m w =
        let ws = (sql, values) ∷ [] in
        let s' = (execute odbc sql values s).1 in
        let held = laws.held_back sql values s m in
        let freed = laws.freed s' in
        elim (Bool-cases (execute odbc sql values s).0) [
          | inr e ↦ subst (Ran s ws) (sym (if_of_true _ _ (ap not e))) (freed.same_committed ∙ held)
          | inl e ↦
              let (pen, man) = laws.executed sql values s m e w in
              subst (Ran s ws) (sym (if_of_false _ _ (ap not e)))
                (elim (Bool-cases (is_modified c.op && is_zero (get_row_count odbc s'))) [
                  | inl z ↦ subst (Ran s ws) (sym (if_of_true _ _ z)) (freed.same_committed ∙ held)
                  | inr z ↦
                      subst (Ran s ws) (sym (if_of_false _ _ z))
                        (elim (Bool-cases (is_added c.op && has_int_key (meta_of c.type_index))) [
                          | inl k ↦
                              subst (Ran s ws) (sym (if_of_true _ _ k))
                                (fetch_key-Ran ws c s s' (held, pen, man))
                          | inr k ↦
                              subst (Ran s ws) (sym (if_of_false _ _ k))
                                (Ran-Same ws c s s' _ (held, pen, man) freed)
                        ])
                ])
        ]

    turn-Ran :
        (c : ChangeEntry) (s : odbc.State)
        → logs.manual s ≡ true
        → Ran s (asked (c ∷ [])) (turn odbc meta_of heap c s)
    unfolding turn
    turn-Ran c s m = elim (Option-cases (statement (meta_of c.type_index) c.op (heap c.obj))) [
      | inl e ↦ rw (e, turn, asked) (refl, sym (append-nil (logs.pending s)), m)
      | inr ((sql, values), e) ↦
          rw (e, turn, asked)
            (run_statement-Ran c sql values s m
              (statement-writes (meta_of c.type_index) c.op (heap c.obj) sql values e))
    ]

    asked-cons :
        (c : ChangeEntry) (cs : List ChangeEntry) → asked (c ∷ cs) ≡ asked (c ∷ []) ++ asked cs
    asked-cons c cs = elim (Option-cases (statement (meta_of c.type_index) c.op (heap c.obj))) [
      | inl e ↦ rw (e, asked) refl
      | inr (w, e) ↦ rw (e, asked) refl
    ]

    -- Where the loop over the changes leaves the logs.
    abbrev pub Leaves : List ChangeEntry → odbc.State → Flushed odbc meta_of → Type 0
    Leaves cs s r =
        (logs.committed r.after ≡ logs.committed s)
        × (r.all_ok ≡ true → logs.pending r.after ≡ logs.pending s ++ asked cs)

    flush-turn :
        (c : ChangeEntry) (cs : List ChangeEntry) (s : odbc.State) (t : Turn odbc meta_of)
        → ((s' : odbc.State) → logs.manual s' ≡ true → Leaves cs s' (flush odbc meta_of heap cs s'))
        → turn odbc meta_of heap c s ≡ t
        → Ran s (asked (c ∷ [])) t
        → Leaves (c ∷ cs) s (flush odbc meta_of heap (c ∷ cs) s)
    unfolding flush
    flush-turn c cs s (failed s') ih e r = rw (e, flush) (r, λ ok. absurd cc)
    flush-turn c cs s (conflicted s') ih e r = rw (e, flush) (r, λ ok. absurd cc)
    flush-turn c cs s (passed c' s') ih e (held, pen, man) =
        let (held', pen') = ih s' man in
        rw (e, flush)
          (
            held' ∙ held,
            λ ok.
                pen' ok
                ∙ ap (λ l. l ++ asked cs) pen
                ∙ append_assoc (logs.pending s) (asked (c ∷ [])) (asked cs)
                ∙ ap (◌++◌ (logs.pending s)) (sym (asked-cons c cs)),
          )

    pub flush-Leaves :
        (cs : List ChangeEntry) (s : odbc.State)
        → logs.manual s ≡ true
        → Leaves cs s (flush odbc meta_of heap cs s)
    flush-Leaves [] s m = unfold flush in (refl, λ _. sym (append-nil (logs.pending s)))
    flush-Leaves (c ∷ cs) s m =
        flush-turn c cs s (turn odbc meta_of heap c s) (flush-Leaves cs) refl (turn-Ran c s m)
