-- ===== src/Orm/Context.antt =====
-- The state of a `DBContext` (Server/DB/ORM/DBContext.h), its list of changes and the calls of a
-- `DbSet` on it, and the statement of a change. Objects are numbers, of which the heap has the
-- fields; the types of the objects are registered, and their key is one of their fields.
pub mod Save
pub mod Atomic
pub mod Reload
pub mod Values
pub mod Pending
pub mod Calls
pub mod Query
pub mod Transaction
use asio_chat_server.Common.{
  ℕ, zero, suc, ◌+◌, Bool, true, false, not, ◌&&◌, ◌||◌, Option, none, some, List, [], ◌∷◌, ◌++◌,
  ◌==◌, if◌then◌else◌, bytes_eq, is_empty, map, update, length,
}
use asio_chat_server.Common.Int.{ℤ}
use asio_chat_server.Accounts.Store.{eq_ℤ}
use asio_chat_server.Orm.Meta.{
  DbValue, monostate, int64, float64, boolean, string, FieldMeta, EntityMeta, Object, field_index,
  is_identity, is_int, read, read_origin, is_dirty,
}
use asio_chat_server.Orm.Property.{Property}
use asio_chat_server.Orm.Sql.{insert_sql, delete_sql, update_sql, field_at}
use asio_chat_server.Orm.Connection.{Odbc, begin, rollback}

pub data DbOp : Type 0 where
  added modified deleted unchanged : DbOp

pub record ChangeEntry : Type 0 where
  pub op : DbOp
  pub type_index : ℕ
  pub obj : ℕ
  pub new_pk : DbValue

abbrev pub eq_bool : Bool → Bool → Bool
eq_bool true b = b
eq_bool false b = not b

abbrev pub eq_value : DbValue → DbValue → Bool
eq_value monostate monostate = true
eq_value (int64 a) (int64 b) = eq_ℤ a b
eq_value (float64 a) (float64 b) = a == b
eq_value (boolean a) (boolean b) = eq_bool a b
eq_value (string a) (string b) = bytes_eq a b
eq_value _ _ = false

-- The entries of `IdentityMap`: a type and a key, with the object. The source leaves their order to
-- `std::type_index`; here a new entry comes last.
abbrev pub IdentityMap : Type 0
IdentityMap = List ((ℕ × DbValue) × ℕ)

abbrev pub same_key : ℕ × DbValue → ℕ × DbValue → Bool
same_key (t, v) (u, w) = t == u && eq_value v w

unfoldable pub find_in_identity_map : ℕ × DbValue → IdentityMap → Option ℕ
find_in_identity_map k [] = none
find_in_identity_map k ((j, o) ∷ m) = if same_key k j then some o else find_in_identity_map k m

unfoldable pub register_in_identity_map : ℕ × DbValue → ℕ → IdentityMap → IdentityMap
register_in_identity_map k o [] = (k, o) ∷ []
register_in_identity_map k o ((j, p) ∷ m) =
    if same_key k j then (k, o) ∷ m else (j, p) ∷ register_in_identity_map k o m

unfoldable pub erase_from_identity_map : ℕ × DbValue → IdentityMap → IdentityMap
erase_from_identity_map k [] = []
erase_from_identity_map k ((j, p) ∷ m) =
    if same_key k j then m else (j, p) ∷ erase_from_identity_map k m

unfoldable pub has_change_for : ℕ → List ChangeEntry → Bool
has_change_for o [] = false
has_change_for o (c ∷ cs) = c.obj == o || has_change_for o cs

unfoldable pub remove_changes : ℕ → List ChangeEntry → List ChangeEntry
remove_changes o [] = []
remove_changes o (c ∷ cs) = let rest = remove_changes o cs in if c.obj == o then rest else c ∷ rest

abbrev pub is_added : DbOp → Bool
is_added added = true
is_added _ = false

unfoldable pub cancel_added : ℕ → List ChangeEntry → Bool × List ChangeEntry
cancel_added o [] = (false, [])
cancel_added o (c ∷ cs) =
    let (found, rest) = cancel_added o cs in
    if c.obj == o && is_added c.op then (true, rest) else (found, c ∷ rest)

pub record DbContext (odbc : Odbc) : Type 0 where
  pub changes : List ChangeEntry
  pub occ_changes : List ChangeEntry
  pub identity_map : IdentityMap
  pub conflict_count : ℕ
  pub in_transaction : Bool
  pub connection : odbc.State
  pub heap : ℕ → Object
  pub destroyed : List ℕ

abbrev pub new_entry : DbOp → ℕ → ℕ → ChangeEntry
new_entry op t o = record { op = op; type_index = t; obj = o; new_pk = monostate }

abbrev pub added_objects : List ChangeEntry → List ℕ
added_objects [] = []
added_objects (c ∷ cs) = let rest = added_objects cs in if is_added c.op then c.obj ∷ rest else rest

-- `DbSet<T>` of the type `t`.
module _ {odbc : Odbc} where
  unfoldable pub add : ℕ → ℕ → DbContext odbc → DbContext odbc
  add t o ctx = record ctx { changes = ctx.changes ++ new_entry added t o ∷ [] }

  unfoldable pub delete : ℕ → ℕ → DbContext odbc → DbContext odbc
  unfolding cancel_added remove_changes
  delete t o ctx =
      let (found, kept) = cancel_added o ctx.changes in
      if found
      then record ctx { changes = kept; destroyed = o ∷ ctx.destroyed }
      else record ctx { changes = remove_changes o kept ++ new_entry deleted t o ∷ [] }

  unfoldable pub update_object : ℕ → ℕ → DbContext odbc → DbContext odbc
  unfolding has_change_for
  update_object t o ctx =
      if has_change_for o ctx.changes
      then ctx
      else record ctx { changes = ctx.changes ++ new_entry modified t o ∷ [] }

  unfoldable pub begin_transaction : DbContext odbc → Bool × DbContext odbc
  unfolding begin
  begin_transaction ctx =
      if ctx.in_transaction
      then (true, ctx)
      else (let (begun, s) = begin odbc ctx.connection in
          (begun, record ctx { in_transaction = begun; connection = s }))

  -- The destructor.
  unfoldable pub destruct : DbContext odbc → DbContext odbc
  unfolding rollback
  destruct ctx = record ctx {
    changes = [];
    identity_map = [];
    in_transaction = false;
    connection = if ctx.in_transaction then (rollback odbc ctx.connection).1 else ctx.connection;
    destroyed = map (λ e. e.1) ctx.identity_map ++ (added_objects ctx.changes ++ ctx.destroyed);
  }

-- The place of the key, and whether the database makes it.
abbrev pub key_place : EntityMeta → ℕ
key_place meta = elim (field_index meta.primary_key_name meta.fields) [
  | some i ↦ i
  | none ↦ length meta.fields
]

abbrev pub has_int_key : EntityMeta → Bool
has_int_key meta = elim (field_at meta.fields (key_place meta)) [
  | [] ↦ false
  | f ∷ fs ↦ is_int f.data_type
]

abbrev pub insert_values : EntityMeta → Object → ℕ → List FieldMeta → List DbValue
insert_values meta o i [] = []
insert_values meta o i (f ∷ fs) =
    let rest = insert_values meta o (suc i) fs in
    if is_identity meta f then rest else read o i ∷ rest

abbrev pub modified_places : EntityMeta → Object → ℕ → List FieldMeta → List ℕ
modified_places meta o i [] = []
modified_places meta o i (f ∷ fs) =
    let rest = modified_places meta o (suc i) fs in
    if is_identity meta f then rest else if is_dirty o i then i ∷ rest else rest

abbrev pub origins : Object → ℕ → List FieldMeta → List DbValue
origins o i [] = []
origins o i (f ∷ fs) = read_origin o i ∷ origins o (suc i) fs

-- The statement that a change needs, with the values for its marks; an update without a field that
-- was written needs none.
unfoldable pub statement : EntityMeta → DbOp → Object → Option (List ℕ × List DbValue)
unfolding insert_sql delete_sql update_sql
statement meta added o = some (insert_sql meta, insert_values meta o 0 meta.fields)
statement meta deleted o = some (delete_sql meta, read o (key_place meta) ∷ [])
statement meta modified o =
    let places = modified_places meta o 0 meta.fields in
    if is_empty places
    then none
    else some (update_sql meta places, map (read o) places ++ origins o 0 meta.fields)
statement meta unchanged o = none
