-- ===== src/Orm/Connection.antt =====
-- `DBConnection` of Server/DB/ORM/DBConnection.cpp, over the calls of the ODBC library, which are a
-- parameter. The values of `BindParam` go with the statement; the columns of `BindCol` are the row
-- that the last fetch filled.
pub mod Logs
use asio_chat_server.Common.{
  ℕ, ◌%◌, ◌-◌, ◌^◌, Bool, true, false, ◌||◌, Option, List, if◌then◌else◌, ltb,
}
use asio_chat_server.Common.Int.{ℤ, pos, negsuc}
use asio_chat_server.Orm.Meta.{DbValue}

pub data SqlReturn : Type 0 where
  success success_with_info no_data error other : SqlReturn

-- The library on one connection. A row has `none` at a column whose value is NULL.
pub record Odbc : Type 1 where
  pub State : Type 0
  pub exec_direct : List ℕ → List DbValue → State → SqlReturn × State
  pub fetch_row : State → SqlReturn × State
  pub row : State → List (Option DbValue)
  pub row_count : State → SqlReturn × ℤ
  pub free_statement : State → State
  pub set_autocommit : Bool → State → SqlReturn × State
  pub end_tran : Bool → State → SqlReturn × State

abbrev pub succeeded : SqlReturn → Bool
succeeded success = true
succeeded success_with_info = true
succeeded _ = false

abbrev pub is_no_data : SqlReturn → Bool
is_no_data no_data = true
is_no_data _ = false

-- The `int32` that a count is cut to.
abbrev pub to_int32 : ℤ → ℤ
to_int32 (pos n) = let m = n % 2 ^ 32 in if ltb m (2 ^ 31) then pos m else negsuc (2 ^ 32 - 1 - m)
to_int32 (negsuc n) =
    let m = n % 2 ^ 32 in if ltb m (2 ^ 31) then negsuc m else pos (2 ^ 32 - 1 - m)

module _ (odbc : Odbc) where
  -- A searched statement that matches no row is no error.
  abbrev pub execute : List ℕ → List DbValue → odbc.State → Bool × odbc.State
  execute query values s =
      let (ret, s') = odbc.exec_direct query values s in (is_no_data ret || succeeded ret, s')

  abbrev pub fetch : odbc.State → Bool × odbc.State
  fetch s =
      let (ret, s') = odbc.fetch_row s in
      (elim ret [ no_data ↦ false | error ↦ false | _ ↦ true ], s')

  abbrev pub get_row_count : odbc.State → ℤ
  get_row_count s =
      let (ret, count) = odbc.row_count s in if succeeded ret then to_int32 count else negsuc 0

  abbrev pub unbind : odbc.State → odbc.State
  unbind s = odbc.free_statement s

  unfoldable pub begin : odbc.State → Bool × odbc.State
  begin s = let (ret, s') = odbc.set_autocommit false s in (succeeded ret, s')

  unfoldable pub restore_autocommit : odbc.State → Bool × odbc.State
  restore_autocommit s = let (ret, s') = odbc.set_autocommit true s in (succeeded ret, s')

  abbrev pub finish : Bool → odbc.State → Bool × odbc.State
  unfolding restore_autocommit
  finish committing s =
      let (ret, s') = odbc.end_tran committing s in
      elim (succeeded ret) [ true ↦ restore_autocommit s' | false ↦ (false, s') ]

  unfoldable pub commit : odbc.State → Bool × odbc.State
  commit s = finish true s

  unfoldable pub rollback : odbc.State → Bool × odbc.State
  rollback s = finish false s
