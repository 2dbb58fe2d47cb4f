-- ===== src/Orm/Context/Query/Owned.antt =====
-- `DbSet::ToList` (Server/DB/ORM/DBContext.h) puts every object under one key only.
use asio_chat_server.Common.{
  ℕ, zero, suc, ◌≤◌, ◌<◌, ◌≡◌, refl, true, false, Option, none, some, List, [], ◌∷◌, arith, All,
  contains, map, Bool-cases, Option-cases, inl, inr, drop, length,
}
use asio_chat_server.Orm.Meta.{DbValue, EntityMeta, RelationMeta, Object}
use asio_chat_server.Orm.Sql.Query.{DbSet}
use asio_chat_server.Orm.Connection.{Odbc, execute, fetch, unbind}
use asio_chat_server.Orm.Context.{find_in_identity_map}
use asio_chat_server.Orm.Context.Query.{
  row_key, Loading, make, found_or_made, load_target, load_includes, load_new, load_row, load_rows,
  run_query,
}
use asio_chat_server.Orm.Context.Query.Entries.{
  objects_of, Apart, register-absent, register-Apart, register-below, below-absent, below-suc,
}

-- The objects of the map are different, and made before.
pub record Owned (l : Loading) : Type 0 where
  pub apart : Apart (objects_of l.identities)
  pub below : All (λ x. x < l.next) (objects_of l.identities)

-- A part of a query: objects that were made before stay out of the map if they were.
record Grows (l l' : Loading) : Type 0 where
  owned : Owned l'
  later : l.next ≤ l'.next
  absent :
      (x : ℕ)
      → x < l.next
      → contains x (objects_of l.identities) ≡ false
      → contains x (objects_of l'.identities) ≡ false

module _ (meta_of : ℕ → EntityMeta) (blank : ℕ → Object) where
  stays : (l : Loading) → Owned l → Grows l l
  stays l w = record { owned = w; later = omega arith; absent = λ x b h. h }

  found_or_made-Grows :
      (f : Option ℕ) (t : ℕ) (slots : List (Option DbValue)) (l : Loading)
      → Owned l
      → Grows l (found_or_made meta_of blank f t slots l).1
  found_or_made-Grows (some o) t slots l w = stays l w
  found_or_made-Grows none t slots l w =
      let k : ℕ × DbValue = (t, row_key (meta_of t) slots) in
      record {
        owned = record {
          apart = register-Apart l.next k l.identities (below-absent l.next _ w.below) w.apart;
          below =
              register-below (suc l.next) l.next k l.identities (omega arith)
                (below-suc l.next _ w.below);
        };
        later = omega arith;
        absent = λ x b h. register-absent x l.next k l.identities (λ e. omega arith) h;
      }

  load_includes-Grows :
      (o : ℕ) (rels : List RelationMeta) (slots : List (Option DbValue)) (l : Loading)
      → Owned l
      → Grows l (load_includes meta_of blank o rels slots l)
  unfolding load_includes
  load_includes-Grows o [] slots l w = stays l w
  load_includes-Grows o (rel ∷ rels) slots l w =
      let g = found_or_made-Grows _ rel.target_type slots l w in
      let (target, found) = load_target meta_of blank rel.target_type slots l in
      let h =
        load_includes-Grows o rels (drop (length (meta_of rel.target_type).fields) slots)
          (record found { bound = (o, target) ∷ found.bound })
          (record { apart = g.owned.apart; below = g.owned.below }) in
      record {
        owned = h.owned;
        later = omega (arith, g.later, h.later);
        absent = λ x b a. h.absent x (omega (arith, g.later)) (g.absent x b a);
      }

  load_new-Owned :
      (t : ℕ) (rels : List RelationMeta) (slots : List (Option DbValue)) (l : Loading)
      → Owned l
      → Owned (load_new meta_of blank t rels slots l).1
  unfolding load_new
  load_new-Owned t rels slots l w =
      let made = (make meta_of blank t slots l).1 in
      let k : ℕ × DbValue = (t, row_key (meta_of t) slots) in
      let g =
        load_includes-Grows l.next rels (drop (length (meta_of t).fields) slots) made
          (record { apart = w.apart; below = below-suc l.next _ w.below }) in
      let after =
        load_includes meta_of blank l.next rels (drop (length (meta_of t).fields) slots) made in
      record {
        apart =
            register-Apart l.next k after.identities
              (g.absent l.next (omega arith) (below-absent l.next _ w.below)) g.owned.apart;
        below =
            register-below after.next l.next k after.identities (omega (arith, g.later))
              g.owned.below;
      }

  load_row-Owned :
      (t : ℕ) (rels : List RelationMeta) (slots : List (Option DbValue)) (l : Loading)
      → Owned l
      → Owned (load_row meta_of blank t rels slots l).1
  unfolding load_row
  load_row-Owned t rels slots l w =
      elim (Option-cases (find_in_identity_map (t, row_key (meta_of t) slots) l.identities)) [
        | inl e ↦ rw (e, load_row) (load_new-Owned t rels slots l w)
        | inr (o, e) ↦ rw (e, load_row) w
      ]

  module _ (odbc : Odbc) (left : odbc.State → ℕ)
      (fewer : (s : odbc.State) → (fetch odbc s).0 ≡ true → left (fetch odbc s).1 < left s) where
    abbrev Loads : Option (List ℕ × (odbc.State × Loading)) → Type 0
    Loads o = (r : List ℕ × (odbc.State × Loading)) × (o ≡ some r) × Owned r.1.1

    more_rows :
        (fuel t : ℕ) (rels : List RelationMeta) (s : odbc.State) (l : Loading)
        → (fetch odbc s).0 ≡ true
        → Loads (
            load_rows meta_of blank odbc fuel t rels
              (fetch odbc s).1
              (load_row meta_of blank t rels (odbc.row (fetch odbc s).1) l).1)
        → Loads (load_rows meta_of blank odbc (suc fuel) t rels s l)
    unfolding load_rows
    more_rows fuel t rels s l e ((os, after), eq, own) = (
      ((load_row meta_of blank t rels (odbc.row (fetch odbc s).1) l).0 ∷ os, after),
      rw e (rw eq refl),
      own,
    )

    load_rows-Owned :
        (fuel t : ℕ) (rels : List RelationMeta) (s : odbc.State) (l : Loading)
        → left s < fuel
        → Owned l
        → (r : List ℕ × (odbc.State × Loading)) × (load_rows meta_of blank odbc fuel t rels s l
            ≡ some r)
          × Owned r.1.1
    unfolding load_rows
    load_rows-Owned zero t rels s l h w = absurd (omega arith)
    load_rows-Owned (suc fuel) t rels s l h w = elim (Bool-cases (fetch odbc s).0) [
      | inr e ↦ (([], ((fetch odbc s).1, l)), rw e refl, w)
      | inl e ↦ more_rows fuel t rels s l e (
          load_rows-Owned fuel t rels (fetch odbc s).1 _ (omega (arith, fewer s e, h))
            (load_row-Owned t rels (odbc.row (fetch odbc s).1) l w))
    ]

    run_rows :
        (fuel t : ℕ) (q : DbSet) (sql : List ℕ) (s : odbc.State) (l : Loading)
        → (execute odbc sql (map (λ c. c.value) q.conditions) s).0 ≡ true
        → Loads (
            load_rows meta_of blank odbc fuel t q.includes
              (execute odbc sql (map (λ c. c.value) q.conditions) s).1
              l)
        → Loads (run_query meta_of blank odbc fuel t q sql s l)
    unfolding run_query
    run_rows fuel t q sql s l e ((os, (s', l')), eq, own) =
        ((os, (unbind odbc s', l')), rw (e, run_query) (rw eq refl), own)

    -- A query ends, if every row that is fetched leaves fewer to fetch and the fuel is more than the
    -- rows of the answer, whatever it has; and if the objects of the map were different before, they
    -- are after it, so that the destructor frees none twice.
    pub run_query-Owned :
        (fuel t : ℕ) (q : DbSet) (sql : List ℕ) (s : odbc.State) (l : Loading)
        → left (execute odbc sql (map (λ c. c.value) q.conditions) s).1 < fuel
        → Owned l
        → (r : List ℕ × (odbc.State × Loading)) × (run_query meta_of blank odbc fuel t q sql s l
            ≡ some r)
          × Owned r.1.1
    unfolding run_query
    run_query-Owned fuel t q sql s l h w =
        elim (Bool-cases (execute odbc sql (map (λ c. c.value) q.conditions) s).0) [
          | inr e ↦ (
            ([], (unbind odbc (execute odbc sql (map (λ c. c.value) q.conditions) s).1, l)),
            rw (e, run_query) refl,
            w,
          )
          | inl e ↦ run_rows fuel t q sql s l e (load_rows-Owned fuel t q.includes _ l h w)
        ]
