-- ===== src/Tests/Queries.antt =====
-- Runs of a query of the object-relational mapper, and of the scopes of a pool.
use asio_chat_server.Common.{
  ℕ, zero, suc, ◌<◌, arith, ◌+◌, ◌≤◌, ◌≡◌, refl, Bool, true, false, some, List, [], ◌∷◌, codes,
}
use asio_chat_server.Common.Int.{pos}
use asio_chat_server.Orm.Meta.{int64, string}
use asio_chat_server.Orm.Sql.Query.{DbSet}
use asio_chat_server.Orm.Context.Query.{Loading, run_query}
use asio_chat_server.Orm.Context.Query.Owned.{Owned, run_query-Owned}
use asio_chat_server.Orm.Connection.{SqlReturn, fetch, no_data, Odbc, success}
use asio_chat_server.Orm.Pool.{
  new_pool, connect_all, connect, Usage, opens, Steps, no_step, next_step, pop,
}
use asio_chat_server.Orm.Pool.Scopes.{count, Steps-exclusive}
use asio_chat_server.Tests.Mapper.{user_meta, user_object}

-- Two connections, of which one was taken.
abbrev one_taken : Usage
one_taken = record { idle = 0 ∷ []; scoped = 1 ∷ [] }

abbrev all_open : ℕ → Bool
all_open i = true

one_taken-Steps :
    Steps
      (record { idle = (connect true true all_open 2 new_pool).1.connections; scoped = [] })
      one_taken
unfolding pop connect connect_all
one_taken-Steps = next_step _ _ _ (opens 1 (0 ∷ []) _ refl) (no_step one_taken)

Steps-exclusive_example :
    (count 1 one_taken.idle + count 1 one_taken.scoped
      ≡ count 1 (connect true true all_open 2 new_pool).1.connections)
    × (count 1 one_taken.idle + count 1 one_taken.scoped ≤ 1)
Steps-exclusive_example = Steps-exclusive all_open 2 one_taken one_taken-Steps 1

-- A server whose answer has a number of rows, all with one key.
abbrev fetch_one : ℕ → SqlReturn × ℕ
fetch_one zero = (no_data, zero)
fetch_one (suc n) = (success, n)

abbrev answering : Odbc
answering = record {
  State = ℕ;
  exec_direct = λ sql values s. (success, 2);
  fetch_row = fetch_one;
  row = λ s. some (int64 (pos 1)) ∷ some (string (codes "a")) ∷ [];
  row_count = λ s. (success, pos 2);
  free_statement = λ s. 0;
  set_autocommit = λ on s. (success, s);
  end_tran = λ committing s. (success, s);
}

answering-fewer : (s : ℕ) → (fetch answering s).0 ≡ true → (fetch answering s).1 < s
answering-fewer zero e = absurd cc
answering-fewer (suc n) e = omega arith

abbrev all_users : DbSet
all_users = record {
  conditions = [];
  includes = [];
  table_hint = [];
  order_column = [];
  desc = false;
  top_count = pos 0;
}

abbrev no_objects : Loading
no_objects = record { identities = []; objects = λ o. []; next = 0; bound = [] }

run_query-Owned_example :
    (r : List ℕ × (ℕ × Loading)) × (run_query
        (λ t. user_meta)
        (λ t. user_object)
        answering
        3
        0
        all_users
        (codes "SELECT")
        0
        no_objects
      ≡ some r)
    × Owned r.1.1
run_query-Owned_example =
    run_query-Owned (λ t. user_meta) (λ t. user_object) answering (λ s. s) answering-fewer 3 0
      all_users (codes "SELECT") 0 no_objects (omega arith) (record { apart = tt; below = tt })
