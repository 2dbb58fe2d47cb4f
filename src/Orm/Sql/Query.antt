-- ===== src/Orm/Sql/Query.antt =====
-- `select_sql` of Server/DB/ORM/Sql.h. The types that are registered are a parameter; an `at` of a
-- type that is not throws, which is `none`.
use asio_chat_server.Common.{
  ℕ, suc, Bool, true, Option, none, some, List, [], ◌∷◌, ◌++◌, ◌||◌, if◌then◌else◌, codes, bytes_eq,
  is_empty,
}
use asio_chat_server.Common.Int.{ℤ, pos, ltb_ℤ, pos_part}
use asio_chat_server.Orm.Meta.{DbValue, FieldMeta, EntityMeta, RelationMeta}
use asio_chat_server.Orm.Sql.{to_string, bracketed, joined}

pub record Condition : Type 0 where
  pub column : List ℕ
  pub op : List ℕ
  pub value : DbValue

-- What the calls of `Include`, `Where`, `WithHint`, `OrderBy` and `Take` of a `DbSet` collect.
pub record DbSet : Type 0 where
  pub conditions : List Condition
  pub includes : List RelationMeta
  pub table_hint : List ℕ
  pub order_column : List ℕ
  pub desc : Bool
  pub top_count : ℤ

infixl 5 ◌>>=◌
abbrev pub ◌>>=◌ {ℓ κ} : {A : Type ℓ} {B : Type κ} → Option A → (A → Option B) → Option B
none >>= f = none
some a >>= f = f a

unfoldable pub top_text : ℤ → List ℕ
top_text top =
    if ltb_ℤ (pos 0) top then codes "TOP (" ++ (to_string (pos_part top) ++ codes ") ") else []

abbrev pub alias : ℕ → List ℕ
alias idx = codes "t" ++ to_string (suc idx)

abbrev pub main_column : FieldMeta → List ℕ
main_column f = codes "t0." ++ bracketed f.data_name

abbrev pub alias_columns : List ℕ → List FieldMeta → List ℕ
alias_columns t [] = []
alias_columns t (f ∷ fs) =
    codes ", " ++ (t ++ (codes "." ++ (bracketed f.data_name ++ alias_columns t fs)))

module _ (entities : ℕ → Option EntityMeta) where
  -- The columns of the included tables.
  unfoldable pub include_columns : ℕ → List RelationMeta → Option (List ℕ)
  include_columns idx [] = some []
  include_columns idx (rel ∷ rels) = do
    target ← entities rel.target_type
    rest ← include_columns (suc idx) rels
    some (alias_columns (alias idx) target.fields ++ rest)

  abbrev pub join_text : ℕ → RelationMeta → EntityMeta → List ℕ
  join_text idx rel target =
      codes " JOIN ["
      ++ (rel.target_table_name
          ++ (codes "] "
              ++ (alias idx
                  ++ (codes " ON t0."
                      ++ (bracketed rel.fk_column_name
                          ++ (codes " = "
                              ++ (alias idx
                                  ++ (codes "." ++ bracketed target.primary_key_name))))))))

  unfoldable pub joins : ℕ → List RelationMeta → Option (List ℕ)
  joins idx [] = some []
  joins idx (rel ∷ rels) = do
    target ← entities rel.target_type
    rest ← joins (suc idx) rels
    some (join_text idx rel target ++ rest)

  abbrev pub hint_text : List ℕ → List ℕ
  hint_text hint = if is_empty hint then [] else codes " WITH (" ++ (hint ++ codes ")")

  abbrev pub operator : Condition → List ℕ
  operator c = if bytes_eq c.op (codes "==") || is_empty c.op then codes "=" else c.op

  abbrev pub condition_text : Condition → List ℕ
  condition_text c =
      codes "t0." ++ (bracketed c.column ++ (codes " " ++ (operator c ++ codes " ?")))

  abbrev pub where_text : List Condition → List ℕ
  where_text conditions =
      if is_empty conditions
      then []
      else codes " WHERE " ++ joined (codes " AND ") condition_text true conditions

  abbrev pub order_text : List ℕ → Bool → List ℕ
  order_text column desc =
      if is_empty column
      then []
      else codes " ORDER BY t0."
        ++ (bracketed column ++ (if desc then codes " DESC" else codes " ASC"))

  unfoldable pub select_sql : EntityMeta → DbSet → Option (List ℕ)
  unfolding top_text include_columns joins
  select_sql meta q = do
    columns ← include_columns 0 q.includes
    joined_tables ← joins 0 q.includes
    some (
        codes "SELECT "
        ++ (top_text q.top_count
            ++ (joined (codes ", ") main_column true meta.fields
                ++ (columns
                    ++ (codes " FROM "
                        ++ (bracketed meta.table_name
                            ++ (codes " t0"
                                ++ (hint_text q.table_hint
                                    ++ (joined_tables
                                        ++ (where_text q.conditions
                                            ++ (order_text q.order_column q.desc
                                                ++ codes ";")))))))))))
