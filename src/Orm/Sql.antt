-- ===== src/Orm/Sql.antt =====
-- The statements that Server/DB/ORM/Sql.h writes, as their bytes.
pub mod Query
pub mod Schema
pub mod Marks
use asio_chat_server.Common.{
  ℕ, zero, suc, ◌+◌, ◌/◌, ◌%◌, ltb, Bool, true, false, Option, none, some, List, [], ◌∷◌, ◌++◌,
  if◌then◌else◌, codes,
}
use asio_chat_server.Orm.Meta.{FieldMeta, EntityMeta, is_identity}

-- `std::to_string`; `n` decimal digits are enough for `n`.
abbrev digits : ℕ → ℕ → List ℕ
digits zero n = []
digits (suc fuel) n =
    let front = digits fuel (n / 10) in
    if ltb n 10 then (48 + n) ∷ [] else front ++ (48 + n % 10) ∷ []

unfoldable pub to_string : ℕ → List ℕ
to_string n = digits (suc n) n

abbrev pub bracketed : List ℕ → List ℕ
bracketed name = codes "[" ++ (name ++ codes "]")

-- A loop that writes a separator before every item but the first.
abbrev pub joined {ℓ} : {A : Type ℓ} → List ℕ → (A → List ℕ) → Bool → List A → List ℕ
joined sep item first [] = []
joined sep item first (x ∷ xs) = (if first then [] else sep) ++ (item x ++ joined sep item false xs)

-- The fields that the loops of an insertion do not skip.
abbrev pub stored_fields : EntityMeta → List FieldMeta → List FieldMeta
stored_fields meta [] = []
stored_fields meta (f ∷ fs) =
    let rest = stored_fields meta fs in if is_identity meta f then rest else f ∷ rest

unfoldable pub insert_sql : EntityMeta → List ℕ
insert_sql meta =
    codes "INSERT INTO ["
    ++ (meta.table_name
        ++ (codes "] ("
            ++ (joined (codes ", ") (λ f. bracketed f.data_name) true
                  (stored_fields meta meta.fields)
                ++ (codes ") OUTPUT INSERTED.["
                    ++ (meta.primary_key_name
                        ++ (codes "] VALUES ("
                            ++ (joined (codes ", ") (λ f. codes "?") true
                                  (stored_fields meta meta.fields)
                                ++ codes ");")))))))

unfoldable pub delete_sql : EntityMeta → List ℕ
delete_sql meta =
    codes "DELETE FROM ["
    ++ (meta.table_name ++ (codes "] WHERE [" ++ (meta.primary_key_name ++ codes "] = ?;")))

-- `meta.Fields[idx]`, with nothing behind the end.
abbrev pub field_at : List FieldMeta → ℕ → List FieldMeta
field_at [] i = []
field_at (f ∷ fs) zero = f ∷ []
field_at (f ∷ fs) (suc i) = field_at fs i

abbrev pub fields_at : List FieldMeta → List ℕ → List FieldMeta
fields_at fs [] = []
fields_at fs (i ∷ is) = field_at fs i ++ fields_at fs is

abbrev pub set_item : FieldMeta → List ℕ
set_item f = bracketed f.data_name ++ codes " = ?"

unfoldable pub update_sql : EntityMeta → List ℕ → List ℕ
update_sql meta dirty_indices =
    codes "UPDATE ["
    ++ (meta.table_name
        ++ (codes "] SET "
            ++ (joined (codes ", ") set_item true
                  (stored_fields meta (fields_at meta.fields dirty_indices))
                ++ (codes " WHERE "
                    ++ (joined (codes " AND ") set_item true meta.fields ++ codes ";")))))
