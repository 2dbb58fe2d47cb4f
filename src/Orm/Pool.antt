-- ===== src/Orm/Pool.antt =====
-- `DBConnectionPool` and `DBConnectionScope` of Server/DB/DBConnectionPool.cpp. Every operation on
-- the list holds the mutex, so a step is one operation; a `Pop` on an empty list waits, which is to
-- take no step. Connections are numbered in the order in which they are made.
pub mod Scopes
use asio_chat_server.Common.{
  ℕ, zero, suc, ◌+◌, Bool, true, false, not, Option, none, some, List, [], ◌∷◌, ◌++◌, if◌then◌else◌,
  ◌≡◌,
}

pub record Pool : Type 0 where
  pub connections : List ℕ
  pub environment : Bool

abbrev pub new_pool : Pool
new_pool = record { connections = []; environment = false }

-- The loop of `Connect`, with whether the connection of a number opens.
unfoldable pub connect_all : (ℕ → Bool) → ℕ → ℕ → List ℕ → Bool × List ℕ
connect_all opens i zero conns = (true, conns)
connect_all opens i (suc n) conns =
    let rest = connect_all opens (suc i) n (conns ++ i ∷ []) in
    if opens i then rest else (false, conns)

-- `Connect`: the environment handle and its version, then the connections.
unfoldable pub connect : Bool → Bool → (ℕ → Bool) → ℕ → Pool → Bool × Pool
unfolding connect_all
connect allocated versioned opens pool_count p =
    let (connected, conns) = connect_all opens 0 pool_count p.connections in
    if not allocated
    then (false, p)
    else if not versioned
    then (false, record p { environment = true })
    else (connected, record { connections = conns; environment = true })

unfoldable pub clear : Pool → Pool
clear p = record { connections = []; environment = false }

abbrev pub keep_front : ℕ → Option (ℕ × List ℕ) → Option (ℕ × List ℕ)
keep_front c none = none
keep_front c (some (last, rest)) = some (last, c ∷ rest)

-- `back` and `pop_back`.
unfoldable pub pop : List ℕ → Option (ℕ × List ℕ)
pop [] = none
pop (c ∷ []) = some (c, [])
pop (c ∷ d ∷ cs) = keep_front c (pop (d ∷ cs))

unfoldable pub push : ℕ → List ℕ → List ℕ
push c conns = conns ++ c ∷ []

-- The pool, with the connections of the scopes that are alive.
pub record Usage : Type 0 where
  pub idle : List ℕ
  pub scoped : List ℕ

-- The constructor of a scope, and its destructor.
pub data Step : Usage → Usage → Type 0 where
  opens :
      (c : ℕ) (rest : List ℕ) (u : Usage)
      → pop u.idle ≡ some (c, rest)
      → Step u (record { idle = rest; scoped = c ∷ u.scoped })
  closes :
      (c : ℕ) (before behind : List ℕ) (u : Usage)
      → u.scoped ≡ before ++ c ∷ behind
      → Step u (record { idle = push c u.idle; scoped = before ++ behind })

pub data Steps : Usage → Usage → Type 0 where
  no_step : (u : Usage) → Steps u u
  next_step : (u v w : Usage) → Step u v → Steps v w → Steps u w
