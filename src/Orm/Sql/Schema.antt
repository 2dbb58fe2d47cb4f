-- ===== src/Orm/Sql/Schema.antt =====
-- The statements of Server/DB/ORM/Sql.h that make the tables, add columns that are missing, and
-- make the indexes.
use asio_chat_server.Common.{
  ℕ, ltb, true, List, [], ◌∷◌, ◌++◌, if◌then◌else◌, codes, bytes_eq, is_empty, map,
}
use asio_chat_server.Orm.Meta.{
  TypeTag, no_tag, int_tag, double_tag, bool_tag, string_tag, FieldMeta, IndexMeta, EntityMeta,
  is_int,
}
use asio_chat_server.Orm.Sql.{to_string, bracketed, joined}

-- The type of a field: a text has its own length.
unfoldable pub to_sql_type : FieldMeta → List ℕ
to_sql_type f = elim f.data_type [
  | no_tag ↦ codes "SQL_VARIANT"
  | int_tag ↦ codes "BIGINT"
  | double_tag ↦ codes "FLOAT"
  | bool_tag ↦ codes "BIT"
  | string_tag ↦
      codes "NVARCHAR(" ++ (to_string (if ltb 0 f.max_len then f.max_len else 4000) ++ codes ")")
]

abbrev pub key_text : EntityMeta → FieldMeta → List ℕ
key_text meta f =
    if bytes_eq f.data_name meta.primary_key_name
    then codes " NOT NULL PRIMARY KEY"
      ++ (if is_int f.data_type then codes " IDENTITY(1,1)" else [])
    else []

abbrev pub table_columns : EntityMeta → List FieldMeta → List ℕ
unfolding to_sql_type
table_columns meta [] = []
table_columns meta (f ∷ fs) =
    codes "    "
    ++ (bracketed f.data_name
        ++ (codes " "
            ++ (to_sql_type f
                ++ (key_text meta f
                    ++ ((if is_empty fs then [] else codes ",")
                        ++ (codes "\n" ++ table_columns meta fs))))))

unfoldable pub create_table_sql : EntityMeta → List ℕ
create_table_sql meta =
    codes "IF OBJECT_ID(N'[dbo].["
    ++ (meta.table_name
        ++ (codes "]', N'U') IS NULL\nCREATE TABLE ["
            ++ (meta.table_name
                ++ (codes "] (\n" ++ (table_columns meta meta.fields ++ codes ");")))))

abbrev pub default_literal : TypeTag → List ℕ
default_literal no_tag = codes "NULL"
default_literal string_tag = codes "N''"
default_literal _ = codes "0"

abbrev pub add_column_sql : EntityMeta → FieldMeta → List ℕ
add_column_sql meta f =
    codes "IF COL_LENGTH(N'[dbo].["
    ++ (meta.table_name
        ++ (codes "]', N'"
            ++ (f.data_name
                ++ (codes "') IS NULL\n    ALTER TABLE ["
                    ++ (meta.table_name
                        ++ (codes "] ADD ["
                            ++ (f.data_name
                                ++ (codes "] "
                                    ++ (to_sql_type f
                                        ++ (codes " NOT NULL DEFAULT "
                                            ++ (default_literal f.data_type ++ codes ";")))))))))))

unfoldable pub add_columns : EntityMeta → List FieldMeta → List (List ℕ)
add_columns meta [] = []
add_columns meta (f ∷ fs) =
    let rest = add_columns meta fs in
    if bytes_eq f.data_name meta.primary_key_name then rest else add_column_sql meta f ∷ rest

unfoldable pub add_missing_columns_sql : EntityMeta → List (List ℕ)
unfolding add_columns
add_missing_columns_sql meta = add_columns meta meta.fields

abbrev pub create_index_sql : EntityMeta → IndexMeta → List ℕ
create_index_sql meta ix =
    codes "IF NOT EXISTS (SELECT 1 FROM sys.indexes WHERE name = N'"
    ++ (ix.name
        ++ (codes "' AND object_id = OBJECT_ID(N'[dbo].["
            ++ (meta.table_name
                ++ (codes "]'))\n    CREATE "
                    ++ ((if ix.unique then codes "UNIQUE " else [])
                        ++ (codes "NONCLUSTERED INDEX ["
                            ++ (ix.name
                                ++ (codes "] ON ["
                                    ++ (meta.table_name
                                        ++ (codes "] ("
                                            ++ (joined (codes ", ") bracketed true ix.columns
                                                ++ codes ");")))))))))))

unfoldable pub create_indexes_sql : EntityMeta → List (List ℕ)
create_indexes_sql meta = map (create_index_sql meta) meta.indexes
