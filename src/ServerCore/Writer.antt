-- ===== src/ServerCore/Writer.antt =====
-- The writing half of ServerCore/Session.cpp: `Send` and the coroutine `DoWrite`. A section under
-- `WriteMutex` is one step; the packets, the socket and the scheduler are left open.
pub mod Order
use asio_chat_server.Common.{
  ℕ, suc, ◌+◌, ◌≡◌, Bool, true, false, List, [], ◌∷◌, ◌++◌, if◌then◌else◌,
}

-- `loops` counts the `DoWrite` coroutines that are about to take a packet, spawned ones included;
-- `in_flight` are the packets that a coroutine has in `async_write`, and `closing` counts those that
-- have left the locked part of their `catch` and have not yet closed the socket. `wire` are the
-- packets that were written whole, `accepted` what `Send` was called with, and `torn` says that a
-- write has failed.
pub record Writer {ℓ} (A : Type ℓ) : Type ℓ where
  pub write_queue : List A
  pub is_writing : Bool
  pub loops : ℕ
  pub in_flight : List A
  pub closing : ℕ
  pub closed : Bool
  pub torn : Bool
  pub wire : List A
  pub accepted : List A

module _ {ℓ} {A : Type ℓ} where
  -- `Send`: the packet waits behind the others, and the first one starts a coroutine.
  unfoldable pub send_packet : A → Writer A → Writer A
  send_packet a w = record w {
    write_queue = w.write_queue ++ a ∷ [];
    is_writing = true;
    loops = if w.is_writing then w.loops else w.loops + 1;
    accepted = w.accepted ++ a ∷ [];
  }

  -- The head of the loop of `DoWrite`, for one of `n + 1` coroutines: it ends on an empty queue.
  unfoldable pub take_front : ℕ → Writer A → Writer A
  take_front n w = elim w.write_queue [
    | [] ↦ record w { is_writing = false; loops = n }
    | a ∷ rest ↦ record w { write_queue = rest; loops = n; in_flight = a ∷ w.in_flight }
  ]

  -- `async_write` returned for `a`, beside which `others` are in flight.
  unfoldable pub written : A → List A → Writer A → Writer A
  written a others w = record w { in_flight = others; wire = w.wire ++ a ∷ []; loops = w.loops + 1 }

  -- `async_write` threw: the queue is emptied under the lock, which is then let go.
  unfoldable pub write_failed : List A → Writer A → Writer A
  write_failed others w = record w {
    write_queue = [];
    is_writing = false;
    in_flight = others;
    closing = w.closing + 1;
    torn = true;
  }

  -- The `Disconnect` behind that, of one of `n + 1` such coroutines.
  unfoldable pub disconnect_failed : ℕ → Writer A → Writer A
  disconnect_failed n w = record w { closing = n; closed = true }

  -- `Disconnect`
  unfoldable pub disconnect : Writer A → Writer A
  disconnect w = record w { closed = true }

  abbrev pub idle : Writer A
  idle = record {
    write_queue = [];
    is_writing = false;
    loops = 0;
    in_flight = [];
    closing = 0;
    closed = false;
    torn = false;
    wire = [];
    accepted = [];
  }

  -- A write on a closed socket throws.
  pub data Step (w : Writer A) : Writer A → Type ℓ where
    sends : (a : A) → Step w (send_packet a w)
    takes : (n : ℕ) → w.loops ≡ suc n → Step w (take_front n w)
    writes :
        (a : A) (before after : List A)
        → w.in_flight ≡ before ++ a ∷ after
        → w.closed ≡ false
        → Step w (written a (before ++ after) w)
    fails :
        (a : A) (before after : List A)
        → w.in_flight ≡ before ++ a ∷ after
        → Step w (write_failed (before ++ after) w)
    closes : (n : ℕ) → w.closing ≡ suc n → Step w (disconnect_failed n w)
    disconnects : Step w (disconnect w)

  pub data Reach (w : Writer A) : Writer A → Type ℓ where
    here : Reach w w
    next : {u v : Writer A} → Reach w u → Step u v → Reach w v
