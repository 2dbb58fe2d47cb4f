-- ===== src/Orm/Context/Reload.antt =====
-- The reading after a conflict in `SaveChanges` (Server/DB/ORM/DBContext.h) writes nothing.
use asio_chat_server.Common.{
  ℕ, ◌≡◌, refl, sym, subst, ap, true, not, Option, none, some, List, [], ◌∷◌, if_of_true,
  if_of_false, Bool-cases, inl, inr, bytes_eq,
}
use asio_chat_server.Orm.Meta.{DbValue, EntityMeta, Object, read}
use asio_chat_server.Orm.Sql.Query.{select_sql, include_columns, joins, top_text}
use asio_chat_server.Orm.Connection.{Odbc, execute, fetch}
use asio_chat_server.Orm.Connection.Logs.{is_select, Logs, LogsLaws, Same, Same-trans}
use asio_chat_server.Orm.Context.{ChangeEntry, key_place}
use asio_chat_server.Orm.Context.Save.{read_again, read_found, reload, reload_all, key_query}

key_query-is_select :
    (entities : ℕ → Option EntityMeta) (meta : EntityMeta) (pk : DbValue) (sql : List ℕ)
    → select_sql entities meta (key_query meta pk) ≡ some sql
    → is_select sql ≡ true
unfolding select_sql include_columns joins top_text bytes_eq
key_query-is_select entities meta pk sql e = subst (λ o. is_select (text o) ≡ true) e refl
  where
    text : Option (List ℕ) → List ℕ
    text none = []
    text (some sql) = sql

module _ (odbc : Odbc) (meta_of : ℕ → EntityMeta) where
  module _ (logs : Logs odbc) (laws : LogsLaws odbc logs) where
    stays : (s : odbc.State) → Same logs s s
    stays s = record { same_committed = refl; same_pending = refl; same_manual = refl }

    read_again-Same :
        (c : ChangeEntry) (sql : List ℕ) (pk : DbValue) (heap : ℕ → Object) (s : odbc.State)
        → is_select sql ≡ true
        → Same logs s (read_again odbc meta_of c sql pk (heap, s)).1
    unfolding read_again
    read_again-Same c sql pk heap s q =
        let s1 = (execute odbc sql (pk ∷ []) s).1 in
        let s2 = (fetch odbc s1).1 in
        let asks = laws.queried sql (pk ∷ []) s q in
        let gets = Same-trans odbc logs laws s s1 s2 asks (laws.fetched s1) in
        let freed = Same-trans odbc logs laws s s2 _ gets (laws.freed s2) in
        elim (Bool-cases (execute odbc sql (pk ∷ []) s).0) [
          | inr failed ↦
              subst (λ (r : (ℕ → Object) × odbc.State). Same logs s r.1)
                (sym (if_of_true _ _ (ap not failed)))
                (Same-trans odbc logs laws s s1 _ asks (laws.freed s1))
          | inl done ↦
              subst (λ (r : (ℕ → Object) × odbc.State). Same logs s r.1)
                (sym (if_of_false _ _ (ap not done)))
                (elim (Bool-cases (fetch odbc s1).0) [
                  | inl row ↦
                      subst (λ (r : (ℕ → Object) × odbc.State). Same logs s r.1)
                        (sym (if_of_true _ _ row)) freed
                  | inr gone ↦
                      subst (λ (r : (ℕ → Object) × odbc.State). Same logs s r.1)
                        (sym (if_of_false _ _ gone)) freed
                ])
        ]

    read_found-Same :
        (c : ChangeEntry) (pk : DbValue) (q : Option (List ℕ)) (heap : ℕ → Object) (s : odbc.State)
        → ((sql : List ℕ) → q ≡ some sql → is_select sql ≡ true)
        → Same logs s (read_found odbc meta_of c pk q (heap, s)).1
    read_found-Same c pk none heap s selects = stays s
    read_found-Same c pk (some sql) heap s selects =
        read_again-Same c sql pk heap s (selects sql refl)

    reload-Same :
        (c : ChangeEntry) (heap : ℕ → Object) (s : odbc.State)
        → Same logs s (reload odbc meta_of c (heap, s)).1
    unfolding reload
    reload-Same c heap s =
        let meta = meta_of c.type_index in
        let pk = read (heap c.obj) (key_place meta) in
        read_found-Same c pk _ heap s (key_query-is_select (λ t. some (meta_of t)) meta pk)

    pub reload_all-Same :
        (cs : List ChangeEntry) (heap : ℕ → Object) (s : odbc.State)
        → Same logs s (reload_all odbc meta_of cs (heap, s)).1
    reload_all-Same [] heap s = stays s
    reload_all-Same (c ∷ cs) heap s =
        let (heap', s') = reload odbc meta_of c (heap, s) in
        Same-trans odbc logs laws s s' _ (reload-Same c heap s) (reload_all-Same cs heap' s')
