-- ===== src/Tests/Lock.antt =====
-- Runs of the lock of ServerCore/Lock.cpp.
use asio_chat_server.Common.{ℕ, ◌≡◌, refl, none, some, [], ◌∷◌, arith, length}
use asio_chat_server.ServerCore.RwSpinLock.{
  try_write, try_read, unlocked, write, read, Reach, here, next,
}
use asio_chat_server.ServerCore.RwSpinLock.Exclusion.{writer-excludes}

-- A reader holds the lock, leaves it, and a writer takes it.
read_held : Reach unlocked (record { state = 1; readers = 5 ∷ []; writer = none })
unfolding try_read
read_held = next here (read 5 (omega arith) refl)

write_held : Reach unlocked (record { state = 0x1_0000; readers = []; writer = some 5 })
unfolding try_write
write_held = next here (write 5 refl)

writer-excludes_example :
    (length {A = ℕ} [] ≡ 0) × (try_write 0x1_0000 ≡ none) × (try_read 0x1_0000 ≡ none)
writer-excludes_example = writer-excludes 5 write_held refl
