-- ===== src/ServerCore/RecvBuffer/Pending.antt =====
-- What each operation of the receive buffer does to the bytes between its cursors.
use mathlib.Core.List.{append_assoc}
use asio_chat_server.Common.{
  ℕ, ◌+◌, ◌-◌, ◌≤◌, min, ltb, ◌≡◌, ◌⊎◌, refl, sym, ap, ◌∙◌, true, false, List, ◌++◌, arith, length,
  take, drop, length-take, length-drop, length-append, length-replicate, take-append, drop-append,
  take-all, drop-take, drop-drop, take-length_append, le→ltb,
}
use asio_chat_server.ServerCore.RecvBuffer.{
  RecvBuffer, init, data_size, free_size, copy_front, clean, on_read, on_write, pending,
  socket_write,
}

-- The cursors are in order and inside the storage.
pub record IsValid (b : RecvBuffer) : Type 0 where
  pub ordered : b.read_pos ≤ b.write_pos
  pub inside : b.write_pos ≤ b.capacity
  pub stored : length b.buffer ≡ b.capacity

pub init-IsValid :
    (overlapped : ℕ → ℕ → List ℕ → List ℕ) (size : ℕ) → IsValid (init overlapped size)
unfolding init
init-IsValid overlapped size = record {
  ordered = omega arith;
  inside = omega arith;
  stored = length-replicate _ 0;
}

-- `clean` copies nothing, or the unhandled bytes are no more than the bytes before them, so that
-- the ranges of the copy do not overlap.
abbrev pub Apart : RecvBuffer → Type 0
Apart b = (b.buffer_size ≤ free_size b) ⊎ (data_size b ≤ b.read_pos)

module _ (overlapped : ℕ → ℕ → List ℕ → List ℕ) (r n : ℕ) (buf : List ℕ) (apart : n ≤ r)
    (h : r + n ≤ length buf) where
  length-copy_front : length (copy_front overlapped r n buf) ≡ length buf
  unfolding copy_front
  length-copy_front = ground (
    arith,
    length-append (take n (drop r buf)) (drop n buf),
    length-take n (drop r buf),
    length-drop r buf,
    length-drop n buf,
  )

  take-copy_front : take n (copy_front overlapped r n buf) ≡ take n (drop r buf)
  unfolding copy_front
  take-copy_front =
      let far : ltb r n ≡ false = ground arith in
      rw (far, copy_front)
        (take-append n (take n (drop r buf)) (drop n buf)
            (omega (arith, length-take n (drop r buf), length-drop r buf))
          ∙ take-all n (take n (drop r buf))
              (omega (arith, length-take n (drop r buf), length-drop r buf)))

pub clean-IsValid : (b : RecvBuffer) → IsValid b → Apart b → IsValid (clean b)
unfolding clean
clean-IsValid b v a =
    ground (arith, length-copy_front b.overlapped b.read_pos (data_size b) b.buffer)

-- From a state with its cursors in order, `clean` keeps the unhandled bytes, if it copies none or
-- the ranges of the copy do not overlap.
pub clean-pending : (b : RecvBuffer) → IsValid b → Apart b → pending (clean b) ≡ pending b
unfolding clean
clean-pending b v a = ground (arith, take-copy_front b.overlapped b.read_pos (data_size b) b.buffer)

-- After `clean` there is room for a packet of the nominal size, or else for all that the
-- unhandled bytes leave of the storage.
pub clean-free_size :
    (b : RecvBuffer)
    → IsValid b
    → min b.buffer_size (b.capacity - data_size b) ≤ free_size (clean b)
unfolding clean
clean-free_size b v = ground arith

-- The received bytes stand behind those that were pending.
unfoldable pub received : List ℕ → RecvBuffer → RecvBuffer
received chunk b = (on_write (length chunk) (socket_write chunk b)).1

pub received-IsValid :
    (chunk : List ℕ) (b : RecvBuffer)
    → IsValid b
    → length chunk ≤ free_size b
    → IsValid (received chunk b)
unfolding received on_write socket_write
received-IsValid chunk b v h = ground (
  arith,
  length-append (take b.write_pos b.buffer) (chunk ++ drop (b.write_pos + length chunk) b.buffer),
  length-append chunk (drop (b.write_pos + length chunk) b.buffer),
  length-take b.write_pos b.buffer,
  length-drop (b.write_pos + length chunk) b.buffer,
)

-- The received part of a storage `p ++ (chunk ++ rest)` whose first part ends at the cursor.
window_append :
    (r k : ℕ) (p chunk rest : List ℕ)
    → r ≤ length p
    → k ≡ (length p - r) + length chunk
    → take k (drop r (p ++ (chunk ++ rest))) ≡ drop r p ++ chunk
window_append r k p chunk rest h e =
    rw (drop-append r p (chunk ++ rest) h, ← append_assoc (drop r p) chunk rest, e, ← size)
      (take-length_append (drop r p ++ chunk) rest)
  where
    size : length (drop r p ++ chunk) ≡ (length p - r) + length chunk
    size = omega (arith, length-append (drop r p) chunk, length-drop r p)

-- A received chunk that fits the free part stands behind the unhandled bytes.
pub pending-received :
    (chunk : List ℕ) (b : RecvBuffer)
    → IsValid b
    → length chunk ≤ free_size b
    → pending (received chunk b) ≡ pending b ++ chunk
unfolding received on_write socket_write
pending-received chunk b v h =
    rw (le→ltb (free_size b) (length chunk) h, received, on_write)
      (window_append b.read_pos (b.write_pos + length chunk - b.read_pos)
          (take b.write_pos b.buffer) chunk _ (omega (arith, size, v.ordered))
          (omega (arith, size, v.ordered))
        ∙ ap (λ p. p ++ chunk) (drop-take b.read_pos b.write_pos b.buffer))
  where
    size : length (take b.write_pos b.buffer) ≡ b.write_pos
    size = omega (arith, length-take b.write_pos b.buffer, v.inside, v.stored)

-- Handling `n` bytes drops them from the front; more than there are is refused.
pub pending-on_read :
    (n : ℕ) (b : RecvBuffer)
    → IsValid b
    → n ≤ data_size b
    → ((on_read n b).0 ≡ true)
      × IsValid (on_read n b).1
      × (pending (on_read n b).1 ≡ drop n (pending b))
unfolding on_read
pending-on_read n b v h =
    rw (le→ltb (data_size b) n h, on_read)
      (refl, record { ordered = omega arith; inside = v.inside; stored = v.stored }, sym same)
  where
    same :
        drop n (pending b) ≡ take (b.write_pos - (b.read_pos + n)) (drop (b.read_pos + n) b.buffer)
    same =
        rw (drop-take n (data_size b) (drop b.read_pos b.buffer), drop-drop b.read_pos n b.buffer)
          (ap (λ k. take k (drop (b.read_pos + n) b.buffer)) (omega arith))

pub length-pending : (b : RecvBuffer) → IsValid b → length (pending b) ≡ data_size b
length-pending b v = omega (
  arith,
  length-take (data_size b) (drop b.read_pos b.buffer),
  length-drop b.read_pos b.buffer,
  v.ordered,
  v.inside,
  v.stored,
)

pub on_write-true :
    (chunk : List ℕ) (b : RecvBuffer)
    → length chunk ≤ free_size b
    → (on_write (length chunk) (socket_write chunk b)).0 ≡ true
unfolding on_write socket_write
on_write-true chunk b h = ground arith
