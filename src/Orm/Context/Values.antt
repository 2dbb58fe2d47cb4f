-- ===== src/Orm/Context/Values.antt =====
-- The values that `SaveChanges` (Server/DB/ORM/DBContext.h) binds to the marks of a statement of
-- Server/DB/ORM/Sql.h.
use asio_chat_server.Common.{
  ℕ, zero, suc, ◌≡◌, refl, sym, ap, ◌∙◌, some, List, [], ◌∷◌, ◌++◌, if_of_true, if_of_false,
  some_injective, none≢some, Bool-cases, inl, inr, arith, length, length-append, drop, map,
  is_empty, subst,
}
use asio_chat_server.Orm.Meta.{DbValue, FieldMeta, EntityMeta, Object, is_identity, is_dirty, read}
use asio_chat_server.Orm.Sql.{stored_fields, field_at, fields_at, update_sql}
use asio_chat_server.Orm.Sql.Marks.{
  marks, Clean, marks-insert_sql, marks-delete_sql, marks-update_sql,
}
use asio_chat_server.Orm.Context.{
  DbOp, added, modified, deleted, unchanged, insert_values, modified_places, origins, statement,
}

length-insert_values :
    (meta : EntityMeta) (o : Object) (i : ℕ) (fs : List FieldMeta)
    → length (insert_values meta o i fs) ≡ length (stored_fields meta fs)
length-insert_values meta o i [] = refl
length-insert_values meta o i (f ∷ fs) = ground (arith, length-insert_values meta o (suc i) fs)

length-origins : (o : Object) (i : ℕ) (fs : List FieldMeta) → length (origins o i fs) ≡ length fs
length-origins o i [] = refl
length-origins o i (f ∷ fs) = ap suc (length-origins o (suc i) fs)

length-map {ℓ κ} :
    {A : Type ℓ} {B : Type κ} (f : A → B) (xs : List A) → length (map f xs) ≡ length xs
length-map f [] = refl
length-map f (x ∷ xs) = ap suc (length-map f xs)

-- The rest of the fields behind a place, for the loop that walks both.
abbrev from : ℕ → List FieldMeta → List FieldMeta
from i fs = drop i fs

field_at-from :
    (all : List FieldMeta) (i : ℕ) (f : FieldMeta) (fs : List FieldMeta)
    → from i all ≡ f ∷ fs
    → (field_at all i ≡ f ∷ []) × (from (suc i) all ≡ fs)
field_at-from [] zero f fs e = absurd cc
field_at-from [] (suc i) f fs e = absurd cc
field_at-from (g ∷ all) zero f fs e = (cc, cc)
field_at-from (g ∷ all) (suc i) f fs e = field_at-from all i f fs e

-- No place of a field that was written is skipped by the loop of the update.
stored-places :
    (meta : EntityMeta) (o : Object) (i : ℕ) (fs : List FieldMeta)
    → from i meta.fields ≡ fs
    → length (stored_fields meta (fields_at meta.fields (modified_places meta o i fs)))
      ≡ length (modified_places meta o i fs)
stored-places meta o i [] e = refl
stored-places meta o i (f ∷ fs) e =
    let (here, behind) = field_at-from meta.fields i f fs e in
    let rest = stored-places meta o (suc i) fs behind in
    elim (Bool-cases (is_identity meta f)) [
      | inl skipped ↦ rw (skipped, modified_places) rest
      | inr kept ↦ elim (Bool-cases (is_dirty o i)) [
        | inr clean ↦ rw (kept, clean, modified_places) rest
        | inl dirty ↦
            rw (kept, dirty, modified_places)
              (rw (here, fields_at) (rw (kept, stored_fields) (ap suc rest)))
      ]
    ]

abbrev Fits : List ℕ × List DbValue → Type 0
Fits (sql, values) = marks sql ≡ length values

update-Fits :
    (meta : EntityMeta) (o : Object)
    → Clean meta
    → Fits (
      update_sql meta (modified_places meta o 0 meta.fields),
      map (read o) (modified_places meta o 0 meta.fields) ++ origins o 0 meta.fields,
    )
update-Fits meta o c =
    let places = modified_places meta o 0 meta.fields in
    omega (
      arith,
      marks-update_sql meta places c,
      stored-places meta o 0 meta.fields refl,
      length-append (map (read o) places) (origins o 0 meta.fields),
      length-map (read o) places,
      length-origins o 0 meta.fields,
    )

-- Every statement that `SaveChanges` runs for a change has as many marks `?` as values are bound,
-- if no name in the description of the entity has a mark in it.
pub statement-marks :
    (meta : EntityMeta) (op : DbOp) (o : Object) (sql : List ℕ) (values : List DbValue)
    → Clean meta
    → statement meta op o ≡ some (sql, values)
    → marks sql ≡ length values
unfolding statement
statement-marks meta added o sql values c e =
    subst Fits (some_injective _ _ e)
      (marks-insert_sql meta c ∙ sym (length-insert_values meta o 0 meta.fields))
statement-marks meta deleted o sql values c e =
    subst Fits (some_injective _ _ e) (marks-delete_sql meta c)
statement-marks meta modified o sql values c e =
    elim (Bool-cases (is_empty (modified_places meta o 0 meta.fields))) [
      | inl none_dirty ↦ absurd (none≢some _ (sym (if_of_true _ _ none_dirty) ∙ e))
      | inr dirty ↦
          subst Fits (some_injective _ _ (sym (if_of_false _ _ dirty) ∙ e)) (update-Fits meta o c)
    ]
statement-marks meta unchanged o sql values c e = absurd (none≢some _ e)
