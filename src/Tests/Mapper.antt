-- ===== src/Tests/Mapper.antt =====
-- Runs of the object-relational mapper: a field, the statements of a user, a transaction on a
-- server that logs, and the scopes of a pool.
use mathlib.Core.List.{append-nil}
use asio_chat_server.Common.{
  ℕ, suc, ◌≡◌, refl, sym, subst, if_both, if_of_true, Bool, true, false, some, List, [], ◌∷◌, ◌++◌,
  codes, if◌then◌else◌, bytes_eq, length,
}
use asio_chat_server.Common.Int.{pos}
use asio_chat_server.Orm.Property.{Property, init, assigns, changes, clears, Access, accesses}
use asio_chat_server.Orm.Property.Tracking.{tracks, Follows, accesses-Follows}
use asio_chat_server.Orm.Meta.{DbValue, int64, string, EntityMeta, int_tag, string_tag, Object}
use asio_chat_server.Orm.Sql.Marks.{marks}
use asio_chat_server.Orm.Connection.{Odbc, success, begin}
use asio_chat_server.Orm.Connection.Logs.{Logs, LogsLaws, is_select}
use asio_chat_server.Orm.Context.{DbContext, modified, statement, add, has_change_for}
use asio_chat_server.Orm.Context.Values.{statement-marks}
use asio_chat_server.Orm.Context.Save.{save_changes}
use asio_chat_server.Orm.Context.Transaction.{Transacted, save_changes-Transacted}
use asio_chat_server.Orm.Context.Pending.{Distinct}
use asio_chat_server.Orm.Context.Calls.{adds, saves, no_call, next_call, Calls-Distinct}

abbrev raw : Property ℕ
raw = record { current_value = 0; origin_value = 0; dirty = false }

abbrev some_calls : List (Access ℕ)
some_calls = assigns 5 ∷ changes suc ∷ clears ∷ changes suc ∷ []

accesses-Follows_example :
    Follows
      (accesses some_calls (init 3 raw))
      (tracks some_calls (record { saved = 3; value = 3; touched = false }))
accesses-Follows_example = accesses-Follows 3 raw some_calls

abbrev pub user_meta : EntityMeta
user_meta = record {
  table_name = codes "User";
  fields =
      record { data_type = int_tag; data_name = codes "Id"; max_len = 0 }
      ∷ record { data_type = string_tag; data_name = codes "Email"; max_len = 100 }
      ∷ [];
  primary_key_name = codes "Id";
  relations = [];
  indexes = [];
}

abbrev pub user_object : Object
user_object =
    record { current_value = int64 (pos 1); origin_value = int64 (pos 1); dirty = false }
    ∷ record { current_value = string (codes "b"); origin_value = string (codes "a"); dirty = true }
    ∷ []

abbrev user_sql : List ℕ
user_sql = codes "UPDATE [User] SET [Email] = ? WHERE [Id] = ? AND [Email] = ?;"

abbrev user_values : List DbValue
user_values = string (codes "b") ∷ int64 (pos 1) ∷ string (codes "a") ∷ []

user_update : statement user_meta modified user_object ≡ some (user_sql, user_values)
unfolding statement bytes_eq
user_update = refl

statement-marks_example : marks user_sql ≡ length user_values
statement-marks_example =
    statement-marks user_meta modified user_object user_sql user_values
      (record { clean_table = refl; clean_key = refl; clean_fields = (refl, (refl, tt)) })
      user_update

-- A server that logs every statement, and gives a new row the id 1.
record Server : Type 0 where
  stored : List (List ℕ × List DbValue)
  waiting : List (List ℕ × List DbValue)
  manual_mode : Bool

abbrev new_server : Server
new_server = record { stored = []; waiting = []; manual_mode = false }

abbrev log_statement : List ℕ × List DbValue → Server → Server
log_statement w s =
    if is_select w.0
    then s
    else if s.manual_mode
    then record s { waiting = s.waiting ++ w ∷ [] }
    else record s { stored = s.stored ++ w ∷ [] }

abbrev switch : Bool → Server → Server
switch on s =
    if on
    then record { stored = s.stored ++ s.waiting; waiting = []; manual_mode = false }
    else record s { manual_mode = true }

abbrev logging : Odbc
logging = record {
  State = Server;
  exec_direct = λ sql values s. (success, log_statement (sql, values) s);
  fetch_row = λ s. (success, s);
  row = λ s. some (int64 (pos 1)) ∷ [];
  row_count = λ s. (success, pos 1);
  free_statement = λ s. s;
  set_autocommit = λ on s. (success, switch on s);
  end_tran = λ committing s. (
    success,
    record s { stored = s.stored ++ (if committing then s.waiting else []); waiting = [] },
  );
}

abbrev logs_of : Logs logging
logs_of = record {
  committed = λ s. s.stored;
  pending = λ s. s.waiting;
  manual = λ s. s.manual_mode;
}

log-held :
    (w : List ℕ × List DbValue) (s : Server)
    → s.manual_mode ≡ true
    → (log_statement w s).stored ≡ s.stored
log-held w s m =
    if_both (λ (r : Server). r.stored ≡ s.stored) (is_select w.0) _ _ refl
      (subst (λ (r : Server). r.stored ≡ s.stored) (sym (if_of_true _ _ m)) refl)

logging-LogsLaws : LogsLaws logging logs_of
logging-LogsLaws = record {
  executed = λ sql values s m e w. rw (w, m) (refl, refl);
  held_back = λ sql values s m. log-held (sql, values) s m;
  queried = λ sql values s q.
      rw q (record { same_committed = refl; same_pending = refl; same_manual = refl });
  fetched = λ s. record { same_committed = refl; same_pending = refl; same_manual = refl };
  freed = λ s. record { same_committed = refl; same_pending = refl; same_manual = refl };
  switched_off = λ s e. (refl, refl, refl);
  ended = λ committing s e. (refl, refl);
  switched_on = λ s none_waiting. (rw none_waiting (append-nil s.stored), refl);
}

-- One object that was read and written to.
abbrev one_dirty : DbContext logging
one_dirty = record {
  changes = [];
  occ_changes = [];
  identity_map = ((0, int64 (pos 1)), 7) ∷ [];
  conflict_count = 0;
  in_transaction = false;
  connection = new_server;
  heap = λ o. user_object;
  destroyed = [];
}

save_changes-Transacted_example :
    Transacted logging
      (λ t. user_meta)
      logs_of
      logging-LogsLaws
      one_dirty
      (save_changes logging (λ t. user_meta) one_dirty).0
      (save_changes logging (λ t. user_meta) one_dirty).1
save_changes-Transacted_example =
    save_changes-Transacted logging (λ t. user_meta) logs_of logging-LogsLaws one_dirty
      (λ e. absurd cc) (λ e. unfold begin in refl) (λ committing s. refl)

Calls-Distinct_example :
    Distinct (save_changes logging (λ t. user_meta) (add 0 3 one_dirty)).1.changes
Calls-Distinct_example =
    Calls-Distinct logging (λ t. user_meta) one_dirty
      (save_changes logging (λ t. user_meta) (add 0 3 one_dirty)).1
      (next_call one_dirty (add 0 3 one_dirty) _
        (adds 0 3 one_dirty (unfold has_change_for in refl))
        (next_call (add 0 3 one_dirty) _ _ (saves (add 0 3 one_dirty)) (no_call _)))
      tt
