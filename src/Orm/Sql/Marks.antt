-- ===== src/Orm/Sql/Marks.antt =====
-- The parameter marks `?` in the statements of Server/DB/ORM/Sql.h.
use asio_chat_server.Common.{
  ℕ, zero, suc, ◌+◌, ◌≡◌, refl, sym, ap, subst, ◌∙◌, if_of_true, if_of_false, Bool, true, false,
  List, [], ◌∷◌, ◌++◌, ◌==◌, arith, if◌then◌else◌, All, length, codes, Bool-cases, inl, inr,
}
use asio_chat_server.Orm.Meta.{FieldMeta, EntityMeta, is_identity}
use asio_chat_server.Orm.Sql.{
  bracketed, joined, stored_fields, insert_sql, delete_sql, update_sql, set_item, field_at,
  fields_at,
}

abbrev pub marks : List ℕ → ℕ
marks [] = 0
marks (c ∷ cs) = let rest = marks cs in if c == 63 then suc rest else rest

pub marks-append : (a b : List ℕ) → marks (a ++ b) ≡ marks a + marks b
marks-append [] b = omega arith
marks-append (c ∷ cs) b = ground (arith, marks-append cs b)

-- A part without marks, and one in front of the last mark-less part.
pub marks-skip : (a b : List ℕ) → marks a ≡ 0 → marks (a ++ b) ≡ marks b
marks-skip a b h = omega (arith, marks-append a b, h)

marks-front : (a b : List ℕ) → marks b ≡ 0 → marks (a ++ b) ≡ marks a
marks-front a b h = omega (arith, marks-append a b, h)

abbrev NamedClean : FieldMeta → Type 0
NamedClean f = marks f.data_name ≡ 0

-- No name of a description has a mark in it.
pub record Clean (meta : EntityMeta) : Type 0 where
  pub clean_table : marks meta.table_name ≡ 0
  pub clean_key : marks meta.primary_key_name ≡ 0
  pub clean_fields : All NamedClean meta.fields

module _ {ℓ} {A : Type ℓ} (sep : List ℕ) (item : A → List ℕ) (no_mark : marks sep ≡ 0) where
  marks-joined-cons :
      (first : Bool) (x : A) (xs : List A)
      → marks (joined sep item first (x ∷ xs)) ≡ marks (item x) + marks (joined sep item false xs)
  marks-joined-cons true x xs = marks-append (item x) (joined sep item false xs)
  marks-joined-cons false x xs = omega (
    arith,
    marks-append sep (item x ++ joined sep item false xs),
    marks-append (item x) (joined sep item false xs),
    no_mark,
  )

  pub marks-joined-none :
      (first : Bool) (xs : List A)
      → All (λ x. marks (item x) ≡ 0) xs
      → marks (joined sep item first xs) ≡ 0
  marks-joined-none first [] h = refl
  marks-joined-none first (x ∷ xs) h =
      omega (arith, marks-joined-cons first x xs, marks-joined-none false xs h.1, h.0)

  pub marks-joined-one :
      (first : Bool) (xs : List A)
      → All (λ x. marks (item x) ≡ 1) xs
      → marks (joined sep item first xs) ≡ length xs
  marks-joined-one first [] h = refl
  marks-joined-one first (x ∷ xs) h =
      omega (arith, marks-joined-cons first x xs, marks-joined-one false xs h.1, h.0)

pub marks-bracketed : (name : List ℕ) → marks (bracketed name) ≡ marks name
marks-bracketed name =
    omega (arith, marks-append (codes "[") (name ++ codes "]"), marks-append name (codes "]"))

module _ (P : FieldMeta → Type 0) where
  All-stored_fields :
      (meta : EntityMeta) (fs : List FieldMeta) → All P fs → All P (stored_fields meta fs)
  All-stored_fields meta [] h = tt
  All-stored_fields meta (f ∷ fs) h = elim (Bool-cases (is_identity meta f)) [
    | inl e ↦ subst (All P) (sym (if_of_true _ _ e)) (All-stored_fields meta fs h.1)
    | inr e ↦ subst (All P) (sym (if_of_false _ _ e)) (h.0, All-stored_fields meta fs h.1)
  ]

  All-field_at : (fs : List FieldMeta) (i : ℕ) → All P fs → All P (field_at fs i)
  All-field_at [] i h = tt
  All-field_at (f ∷ fs) zero h = (h.0, tt)
  All-field_at (f ∷ fs) (suc i) h = All-field_at fs i h.1

  All-append : (xs ys : List FieldMeta) → All P xs → All P ys → All P (xs ++ ys)
  All-append [] ys h k = k
  All-append (x ∷ xs) ys h k = (h.0, All-append xs ys h.1 k)

  All-fields_at : (fs : List FieldMeta) (is : List ℕ) → All P fs → All P (fields_at fs is)
  All-fields_at fs [] h = tt
  All-fields_at fs (i ∷ is) h =
      All-append (field_at fs i) _ (All-field_at fs i h) (All-fields_at fs is h)

  pub All-map :
      (Q : FieldMeta → Type 0) (fs : List FieldMeta)
      → ((f : FieldMeta) → P f → Q f)
      → All P fs
      → All Q fs
  All-map Q [] g h = tt
  All-map Q (f ∷ fs) g h = (g f h.0, All-map Q fs g h.1)

ruleset marks_laws = (arith, marks-append, marks-bracketed)

set_item-one : (f : FieldMeta) → NamedClean f → marks (set_item f) ≡ 1
set_item-one f h = rw (marks-append, marks-bracketed, h) refl

pub marks-insert_sql :
    (meta : EntityMeta)
    → Clean meta
    → marks (insert_sql meta) ≡ length (stored_fields meta meta.fields)
unfolding insert_sql
marks-insert_sql meta c =
    let stored = stored_fields meta meta.fields in
    let names =
      marks-joined-none (codes ", ") (λ f. bracketed f.data_name) refl true stored
        (All-map NamedClean _ stored (λ f h. marks-bracketed f.data_name ∙ h)
          (All-stored_fields NamedClean meta meta.fields c.clean_fields)) in
    let questions =
      marks-joined-one (codes ", ") (λ f. codes "?") refl true stored
        (All-map NamedClean _ stored (λ f h. refl)
          (All-stored_fields NamedClean meta meta.fields c.clean_fields)) in
    let values = joined (codes ", ") (λ f. codes "?") true stored in
    let behind = codes "] VALUES (" ++ (values ++ codes ");") in
    marks-skip meta.table_name _ c.clean_table
    ∙ marks-skip (joined (codes ", ") (λ f. bracketed f.data_name) true stored)
        (codes ") OUTPUT INSERTED.[" ++ (meta.primary_key_name ++ behind)) names
    ∙ marks-skip meta.primary_key_name behind c.clean_key
    ∙ marks-front values (codes ");") refl
    ∙ questions

pub marks-delete_sql : (meta : EntityMeta) → Clean meta → marks (delete_sql meta) ≡ 1
unfolding delete_sql
marks-delete_sql meta c =
    marks-skip meta.table_name _ c.clean_table
    ∙ marks-skip meta.primary_key_name (codes "] = ?;") c.clean_key

pub marks-update_sql :
    (meta : EntityMeta) (is : List ℕ)
    → Clean meta
    → marks (update_sql meta is)
      ≡ length (stored_fields meta (fields_at meta.fields is)) + length meta.fields
unfolding update_sql
marks-update_sql meta is c =
    let changed = stored_fields meta (fields_at meta.fields is) in
    let sets = marks-joined-one (codes ", ") set_item refl true changed (
      All-map NamedClean _ changed set_item-one (
        All-stored_fields NamedClean meta _
          (All-fields_at NamedClean meta.fields is c.clean_fields))) in
    let tests =
      marks-joined-one (codes " AND ") set_item refl true meta.fields
        (All-map NamedClean _ meta.fields set_item-one c.clean_fields) in
    let conditions = joined (codes " AND ") set_item true meta.fields in
    let tail = codes " WHERE " ++ (conditions ++ codes ";") in
    marks-skip meta.table_name _ c.clean_table
    ∙ marks-append (joined (codes ", ") set_item true changed) tail
    ∙ ap (λ n. n + marks tail) sets
    ∙ ap (◌+◌ (length changed)) (marks-front conditions (codes ";") refl ∙ tests)
