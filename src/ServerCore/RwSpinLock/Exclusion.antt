-- ===== src/ServerCore/RwSpinLock/Exclusion.antt =====
-- What ServerCore/Lock.cpp guarantees to the threads that use it.
use asio_chat_server.Common.{
  ℕ, ◌+◌, ◌-◌, ◌<◌, ◌≡◌, ◌*◌, refl, ◌⊎◌, inl, Option, none, some, arith, length,
}
use asio_chat_server.ServerCore.RwSpinLock.{
  write_flag, try_write, try_read, write_unlock, read_unlock, Shared, Step, write, write_done, read,
  read_done, Reach, here, next, unlocked,
}

abbrev pub writers : Option ℕ → ℕ
writers none = 0
writers (some t) = 1

-- The state is what the holders make it, and a writer is alone.
pub record IsValid (s : Shared) : Type 0 where
  pub counted : s.state ≡ length s.readers + writers s.writer * write_flag
  pub bounded : length s.readers < write_flag
  pub alone : (s.writer ≡ none) ⊎ (length s.readers ≡ 0)

Step-IsValid : {s t : Shared} → Step s t → IsValid s → IsValid t
unfolding try_write try_read write_unlock read_unlock
Step-IsValid {s} (write {n} t e) v = record {
  counted = ground arith;
  bounded = ground arith;
  alone = ground arith;
}
Step-IsValid {s} (write_done {n} t h e) v = record {
  counted = ground arith;
  bounded = ground arith;
  alone = ground arith;
}
Step-IsValid {s} (read {n} t h e) v = record {
  counted = ground arith;
  bounded = ground arith;
  alone = ground arith;
}
Step-IsValid {s} (read_done {n} t rest h e) v = record {
  counted = ground arith;
  bounded = ground arith;
  alone = ground arith;
}

unlocked-IsValid : IsValid unlocked
unlocked-IsValid = record { counted = refl; bounded = omega arith; alone = inl refl }

pub Reach-IsValid : {s t : Shared} → Reach s t → IsValid s → IsValid t
Reach-IsValid here v = v
Reach-IsValid (next r step) v = Step-IsValid step (Reach-IsValid r v)

-- In every state that threads reach from the unlocked lock by taking and releasing it, with fewer
-- than 65536 readers at a time: while a thread holds the lock for writing, no thread holds it for
-- reading, and no turn of `WriteLock` or of `ReadLock` takes it.
pub writer-excludes :
    {s : Shared} (t : ℕ)
    → Reach unlocked s
    → s.writer ≡ some t
    → (length s.readers ≡ 0) × (try_write s.state ≡ none) × (try_read s.state ≡ none)
unfolding try_write try_read
writer-excludes t r h =
    let v = Reach-IsValid r unlocked-IsValid in (ground arith, ground arith, ground arith)

-- In every state that threads reach from the unlocked lock, with fewer than 65536 readers at a
-- time, and in which a thread holds the lock for writing: the assertion of `WriteUnlock` does not
-- fire, and its result is the state 0.
pub write_unlock-held :
    {s : Shared} (t : ℕ) → Reach unlocked s → s.writer ≡ some t → write_unlock s.state ≡ some 0
unfolding write_unlock
write_unlock-held t r h = let v = Reach-IsValid r unlocked-IsValid in ground arith

-- In every state that threads reach from the unlocked lock, with fewer than 65536 readers at a
-- time, and in which a reader holds the lock: the assertion of `ReadUnlock` does not fire, and its
-- result counts one reader less.
pub read_unlock-held :
    {s : Shared}
    → Reach unlocked s
    → 0 < length s.readers
    → read_unlock s.state ≡ some (length s.readers - 1)
unfolding read_unlock
read_unlock-held r h = let v = Reach-IsValid r unlocked-IsValid in ground arith
