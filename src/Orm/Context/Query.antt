-- ===== src/Orm/Context/Query.antt =====
-- `DbSet::ToList` of Server/DB/ORM/DBContext.h: the rows of a query as objects, each made at most
-- once for a key. `blank` is what `Factory` makes of a type; a new object gets the next number.
pub mod Entries
pub mod Owned
use asio_chat_server.Common.{
  ℕ, zero, suc, ◌+◌, Bool, true, false, Option, none, some, List, [], ◌∷◌, ◌++◌, if◌then◌else◌,
  update, length, drop, map,
}
use asio_chat_server.Common.Int.{pos}
use asio_chat_server.Orm.Meta.{
  DbValue, monostate, int64, float64, boolean, string, TypeTag, no_tag, int_tag, double_tag,
  bool_tag, string_tag, FieldMeta, EntityMeta, RelationMeta, Object,
}
use asio_chat_server.Orm.Sql.{field_at}
use asio_chat_server.Orm.Sql.Query.{Condition, DbSet, select_sql}
use asio_chat_server.Orm.Connection.{Odbc, execute, fetch, unbind}
use asio_chat_server.Orm.Context.{
  IdentityMap, find_in_identity_map, register_in_identity_map, key_place,
}
use asio_chat_server.Orm.Context.Save.{write_row}

-- A slot that was not filled has the value it was set up with. (A key is never NULL: the slot of one
-- that were would keep the value of the row before.)
abbrev pub empty_slot : TypeTag → DbValue
empty_slot no_tag = monostate
empty_slot int_tag = int64 (pos 0)
empty_slot double_tag = float64 0
empty_slot bool_tag = boolean false
empty_slot string_tag = string []

abbrev pub slot_value : TypeTag → Option DbValue → DbValue
slot_value no_tag v = monostate
slot_value tag none = empty_slot tag
slot_value tag (some v) = v

abbrev pub slot_at : List (Option DbValue) → ℕ → Option DbValue
slot_at [] i = none
slot_at (v ∷ vs) zero = v
slot_at (v ∷ vs) (suc i) = slot_at vs i

-- The key of the entity whose columns start the slots.
abbrev pub row_key : EntityMeta → List (Option DbValue) → DbValue
row_key meta slots = elim (field_at meta.fields (key_place meta)) [
  | [] ↦ monostate
  | f ∷ fs ↦ slot_value f.data_type (slot_at slots (key_place meta))
]

-- What a query changes of a context: the map, the objects, the next number, and the navigations
-- that were bound.
pub record Loading : Type 0 where
  pub identities : IdentityMap
  pub objects : ℕ → Object
  pub next : ℕ
  pub bound : List (ℕ × ℕ)

module _ (meta_of : ℕ → EntityMeta) (blank : ℕ → Object) where
  -- A new object of a type, with the columns of the row.
  abbrev pub make : ℕ → List (Option DbValue) → Loading → ℕ × Loading
  make t slots l = (
    l.next,
    record l {
      next = suc l.next;
      objects = update l.objects l.next (write_row 0 (meta_of t).fields slots (blank t));
    },
  )

  abbrev pub register_object : ℕ × DbValue → ℕ → Loading → Loading
  register_object k o l = record l { identities = register_in_identity_map k o l.identities }

  -- The object of the map, or a new one that is put there.
  abbrev pub found_or_made : Option ℕ → ℕ → List (Option DbValue) → Loading → ℕ × Loading
  found_or_made (some o) t slots l = (o, l)
  found_or_made none t slots l =
      let (o, made) = make t slots l in (o, register_object (t, row_key (meta_of t) slots) o made)

  abbrev pub load_target : ℕ → List (Option DbValue) → Loading → ℕ × Loading
  load_target t slots l =
      found_or_made (find_in_identity_map (t, row_key (meta_of t) slots) l.identities) t slots l

  -- The targets of the relations that the query includes, bound to the object.
  unfoldable pub load_includes : ℕ → List RelationMeta → List (Option DbValue) → Loading → Loading
  load_includes o [] slots l = l
  load_includes o (rel ∷ rels) slots l =
      let (target, found) = load_target rel.target_type slots l in
      load_includes o rels (drop (length (meta_of rel.target_type).fields) slots)
        (record found { bound = (o, target) ∷ found.bound })

  abbrev pub load_new : ℕ → List RelationMeta → List (Option DbValue) → Loading → ℕ × Loading
  unfolding load_includes
  load_new t rels slots l =
      let (o, made) = make t slots l in
      let included = load_includes o rels (drop (length (meta_of t).fields) slots) made in
      (o, register_object (t, row_key (meta_of t) slots) o included)

  -- One row: an object that is in the map is reused as it is.
  unfoldable pub load_row : ℕ → List RelationMeta → List (Option DbValue) → Loading → ℕ × Loading
  load_row t rels slots l =
      elim (find_in_identity_map (t, row_key (meta_of t) slots) l.identities) [
        | some o ↦ (o, l)
        | none ↦ load_new t rels slots l
      ]

  module _ (odbc : Odbc) where
    -- The loop of the fetches; `none` is that the fuel ran out.
    unfoldable pub load_rows :
        ℕ → ℕ → List RelationMeta → odbc.State → Loading → Option (List ℕ × (odbc.State × Loading))
    unfolding load_row
    load_rows zero t rels s l = none
    load_rows (suc fuel) t rels s l =
        let (fetched, s') = fetch odbc s in
        let (o, l') = load_row t rels (odbc.row s') l in
        elim fetched [
          | false ↦ some ([], (s', l))
          | true ↦ (elim (load_rows fuel t rels s' l') [
            | none ↦ none
            | some (os, after) ↦ some (o ∷ os, after)
          ])
        ]

    unfoldable pub run_query :
        ℕ → ℕ → DbSet → List ℕ → odbc.State → Loading → Option (List ℕ × (odbc.State × Loading))
    unfolding load_rows
    run_query fuel t q sql s l =
        let (done, s') = execute odbc sql (map (λ c. c.value) q.conditions) s in
        elim done [
          | false ↦ some ([], (unbind odbc s', l))
          | true ↦ (elim (load_rows fuel t q.includes s' l) [
            | none ↦ none
            | some (os, (s'', l')) ↦ some (os, (unbind odbc s'', l'))
          ])
        ]

    unfoldable pub to_list :
        ℕ → ℕ → DbSet → odbc.State → Loading → Option (List ℕ × (odbc.State × Loading))
    unfolding run_query
    to_list fuel t q s l = elim (select_sql (λ u. some (meta_of u)) (meta_of t) q) [
      | none ↦ none
      | some sql ↦ run_query fuel t q sql s l
    ]
