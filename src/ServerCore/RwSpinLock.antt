-- ===== src/ServerCore/RwSpinLock.antt =====
-- ServerCore/Lock.h and Lock.cpp. The state is a `uint32`: bit 16 is the write flag, the bits below
-- it count the readers. `state & READ_MASK` is written as a remainder, and the test of the flag as
-- a quotient; the compare-exchange of a turn of a spin loop is one atomic step.
pub mod Exclusion
use asio_chat_server.Common.{
  ℕ, zero, suc, ◌+◌, ◌-◌, ◌%◌, ◌/◌, ◌^◌, ◌<◌, ◌≡◌, Bool, true, false, Option, none, some, List, [],
  ◌∷◌, ltb, ◌==◌, if◌then◌else◌, length, remove,
}

abbrev pub write_flag : ℕ
write_flag = 0x1_0000

abbrev pub reads : ℕ → ℕ
reads state = state % 2 ^ 16

abbrev pub flag : ℕ → ℕ
flag state = state / 2 ^ 16 % 2

-- `compare_exchange_strong(expected, desired)`: the new state, if the exchange was made.
abbrev pub compare_exchange : ℕ → ℕ → ℕ → Option ℕ
compare_exchange state expected desired = if state == expected then some desired else none

-- One turn of the spin loop of `WriteLock`.
unfoldable pub try_write : ℕ → Option ℕ
try_write state = compare_exchange state 0 write_flag

-- One turn of the spin loop of `ReadLock`, on the state that it loads and finds again.
unfoldable pub try_read : ℕ → Option ℕ
try_read state = compare_exchange state (reads state) ((reads state + 1) % 2 ^ 32)

-- `none` is the crash of the assertion.
unfoldable pub write_unlock : ℕ → Option ℕ
write_unlock state = if flag state == 0 then none else some (state - write_flag)

unfoldable pub read_unlock : ℕ → Option ℕ
read_unlock state = if reads state == 0 then none else some ((state + (2 ^ 32 - 1)) % 2 ^ 32)

-- The spin loops, over the states that the turns meet: the state after the lock was taken, or
-- `none` if no turn took it (the source then yields, and crashes after ten seconds).
unfoldable pub spin : (ℕ → Option ℕ) → List ℕ → Option ℕ
spin try [] = none
spin try (state ∷ states) =
    let rest = spin try states in elim (try state) [ none ↦ rest | some next ↦ some next ]

unfoldable pub write_lock : List ℕ → Option ℕ
unfolding spin try_write
write_lock states = spin try_write states

unfoldable pub read_lock : List ℕ → Option ℕ
unfolding spin try_read
read_lock states = spin try_read states

-- The lock with the threads that hold it.
pub record Shared : Type 0 where
  pub state : ℕ
  pub readers : List ℕ
  pub writer : Option ℕ

-- The atomic steps of the threads. There are fewer threads than the count of readers has values:
-- a reader enters only while fewer than 65535 hold the lock.
pub data Step (s : Shared) : Shared → Type 0 where
  write :
      {n : ℕ} (t : ℕ)
      → try_write s.state ≡ some n
      → Step s (record s { state = n; writer = some t })
  write_done :
      {n : ℕ} (t : ℕ)
      → s.writer ≡ some t
      → write_unlock s.state ≡ some n
      → Step s (record s { state = n; writer = none })
  read :
      {n : ℕ} (t : ℕ)
      → length s.readers + 1 < write_flag
      → try_read s.state ≡ some n
      → Step s (record s { state = n; readers = t ∷ s.readers })
  read_done :
      {n : ℕ} (t : ℕ) (rest : List ℕ)
      → length s.readers ≡ suc (length rest)
      → read_unlock s.state ≡ some n
      → Step s (record s { state = n; readers = rest })

pub data Reach (s : Shared) : Shared → Type 0 where
  here : Reach s s
  next : {t u : Shared} → Reach s t → Step t u → Reach s u

abbrev pub unlocked : Shared
unlocked = record { state = 0; readers = []; writer = none }
