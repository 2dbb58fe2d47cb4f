-- ===== src/Orm/Meta.antt =====
-- The descriptions of the entities, Server/DB/ORM/Meta.h and Types.h, and an object as they show
-- it. A field is reached by its place in the description, as the captured member pointers do. A
-- double is its bits.
use asio_chat_server.Common.{
  ℕ, zero, suc, Bool, true, false, Option, none, some, List, [], ◌∷◌, ◌&&◌, bytes_eq, if◌then◌else◌,
}
use asio_chat_server.Common.Int.{ℤ}
use asio_chat_server.Orm.Property.{Property, init, clear_dirty}

pub data TypeTag : Type 0 where
  no_tag int_tag double_tag bool_tag string_tag : TypeTag

-- `std::variant<std::monostate, int64, float64, bool, std::string>`
pub data DbValue : Type 0 where
  monostate : DbValue
  int64 : ℤ → DbValue
  float64 : ℕ → DbValue
  boolean : Bool → DbValue
  string : List ℕ → DbValue

pub record FieldMeta : Type 0 where
  pub data_type : TypeTag
  pub data_name : List ℕ
  pub max_len : ℕ

pub record RelationMeta : Type 0 where
  pub fk_column_name : List ℕ
  pub target_table_name : List ℕ
  pub target_type : ℕ

pub record IndexMeta : Type 0 where
  pub name : List ℕ
  pub unique : Bool
  pub columns : List (List ℕ)

pub record EntityMeta : Type 0 where
  pub table_name : List ℕ
  pub fields : List FieldMeta
  pub primary_key_name : List ℕ
  pub relations : List RelationMeta
  pub indexes : List IndexMeta

-- `Fields[FieldIndex[name]]` in `EntityMeta::field`: a later field of the name is the one found.
unfoldable pub field_index : List ℕ → List FieldMeta → Option ℕ
field_index name [] = none
field_index name (f ∷ fs) = elim (field_index name fs) [
  | some n ↦ some (suc n)
  | none ↦ if bytes_eq f.data_name name then some 0 else none
]

abbrev pub is_int : TypeTag → Bool
is_int int_tag = true
is_int _ = false

-- `f.DataName == meta.PrimaryKeyName && f.DataType == TypeTag::INT`: a column that the database
-- fills.
abbrev pub is_identity : EntityMeta → FieldMeta → Bool
is_identity meta f = bytes_eq f.data_name meta.primary_key_name && is_int f.data_type

-- An entity object: its fields, in the order of the description.
abbrev pub Object : Type 0
Object = List (Property DbValue)

-- `Read`, `ReadOrigin` and `IsDirty` of the field at a place.
abbrev pub read : Object → ℕ → DbValue
read [] i = monostate
read (p ∷ ps) zero = p.current_value
read (p ∷ ps) (suc i) = read ps i

abbrev pub read_origin : Object → ℕ → DbValue
read_origin [] i = monostate
read_origin (p ∷ ps) zero = p.origin_value
read_origin (p ∷ ps) (suc i) = read_origin ps i

abbrev pub is_dirty : Object → ℕ → Bool
is_dirty [] i = false
is_dirty (p ∷ ps) zero = p.dirty
is_dirty (p ∷ ps) (suc i) = is_dirty ps i

-- `Write` of the field at a place, and `ClearDirty` of all.
abbrev pub write : ℕ → DbValue → Object → Object
write i v [] = []
write zero v (p ∷ ps) = init v p ∷ ps
write (suc i) v (p ∷ ps) = p ∷ write i v ps

abbrev pub clear_all : Object → Object
clear_all [] = []
clear_all (p ∷ ps) = clear_dirty p ∷ clear_all ps
