-- ===== src/Accounts/Transfer/Loop.antt =====
-- The retry loop of `Handle_C_TRANSFER` (Server/Network/ClientPacketHandler.cpp) and the whole handler.
use asio_chat_server.Common.{ℕ, zero, suc, ◌+◌, ◌≡◌, refl, ◌∙◌, List, arith, Option-cases, inl, inr}
use asio_chat_server.Accounts.Store.{User, Store}
use asio_chat_server.Accounts.Store.Save.{StoreLaws}
use asio_chat_server.Accounts.Prelude.{Result, ok, fail, Result-cases}
use asio_chat_server.Common.Int.{ℤ, pos, ◌≤ℤ◌}
use asio_chat_server.Network.World.{World, GameSession}
use asio_chat_server.Network.SessionManager.{get_session}
use asio_chat_server.Network.RoomHandlers.{Encoding}
use asio_chat_server.Accounts.Transfer.Conservation.{Solvent, Conserves, flush-Conserves}
use asio_chat_server.Accounts.Transfer.Parties.{Distinct, parties_occ-Distinct, locked-Distinct}
use asio_chat_server.Accounts.Transfer.{
  TransferLockMode, occ, upd_lock, Attempt, refused, done, retry, flush_result, attempt, attempts,
  answer, transfer_input, handle_transfer,
}

module _ (store : Store) (laws : StoreLaws store) where
  flush_result-Conserves :
      (amount : ℤ) (st : store.State) (r : Result (User × User))
      → pos 0 ≤ℤ amount
      → Distinct r
      → Solvent (store.users st)
      → Conserves store laws st (flush_result store amount st r).1
  unfolding flush_result
  flush_result-Conserves amount st (fail msg) h d v = (v.0, refl)
  flush_result-Conserves amount st (ok (from, to)) h d v =
      flush-Conserves store laws amount st from to h d v

  -- One attempt, whatever it reads and however it ends, keeps the sum of the balances that the
  -- flush starts from, and no balance below zero.
  pub attempt-Conserves :
      (mode : TransferLockMode) (me : ℕ) (target : List ℕ) (amount : ℤ)
      (others : store.State → store.State) (st : store.State)
      → pos 0 ≤ℤ amount
      → Solvent (store.users (others st))
      → Conserves store laws (others st) (attempt store mode me target amount others st).1
  unfolding attempt
  attempt-Conserves occ me target amount others st h v =
      flush_result-Conserves amount (others st) _ h (parties_occ-Distinct store me target st) v
  attempt-Conserves upd_lock me target amount others st h v =
      flush_result-Conserves amount (others st) _ h
        (locked-Distinct store laws me target st (others st)) v

  -- What the other connections commit keeps the sum and no balance below zero.
  abbrev pub KeepsTotal : (ℕ → store.State → store.State) → Type 0
  KeepsTotal others =
      (k : ℕ) (st : store.State) → Solvent (store.users st) → Conserves store laws st (others k st)

  pub attempts-Conserves :
      (mode : TransferLockMode) (me : ℕ) (target : List ℕ) (amount : ℤ)
      (others : ℕ → store.State → store.State) (left k : ℕ) (st : store.State)
      → pos 0 ≤ℤ amount
      → KeepsTotal others
      → Solvent (store.users st)
      → Conserves store laws st (attempts store mode me target amount others left k st).2
  unfolding attempts
  attempts-Conserves mode me target amount others zero k st h keep v = (v.0, refl)
  attempts-Conserves mode me target amount others (suc left) k st h keep v =
      let kept = keep k st v in
      let v' : Solvent (store.users (others k st)) = (kept.0, rw kept.1 v.1) in
      let tried = attempt-Conserves mode me target amount (others k) st h v' in
      let v'' : Solvent (store.users (attempt store mode me target amount (others k) st).1) =
        (tried.0, rw (tried.1, kept.1) v.1) in
      ended (attempt store mode me target amount (others k) st).0 _ (tried.0, tried.1 ∙ kept.1)
        (let rest = attempts-Conserves mode me target amount others left (k + 1) _ h keep v'' in
          (rest.0, rest.1 ∙ tried.1 ∙ kept.1))
    where
      ended :
          (a : Attempt) (st' : store.State)
          → Conserves store laws st st'
          → Conserves store laws st (attempts store mode me target amount others left (k + 1) st').2
          → Conserves store laws st
              (elim a as (λ _. Attempt × ℕ × store.State) [
                | refused msg ↦ (refused msg, k, st')
                | done from to ↦ (done from to, k, st')
                | retry ↦ attempts store mode me target amount others left (k + 1) st'
              ]).2
      ended (refused msg) st' c r = c
      ended (done from to) st' c r = c
      ended retry st' c r = r

  answer-db :
      (sid : ℕ) (name : List ℕ) (amount : ℤ) (r : Attempt × ℕ × store.State) (w : World store.State)
      → (answer store sid name amount r w).db ≡ r.2
  unfolding answer
  answer-db sid name amount (refused msg, k, st) w = refl
  answer-db sid name amount (retry, k, st) w = refl
  answer-db sid name amount (done from to, k, st) w =
      elim (Option-cases (get_session to.id w.online)) [
        | inl e ↦ rw (e, answer) refl
        | inr (other, e) ↦ rw (e, answer) refl
      ]

  transfer_input-positive :
      (enc : Encoding) (s : GameSession) (target : List ℕ) (amount : ℤ) (me : ℕ)
      → transfer_input store enc s target amount ≡ ok me
      → pos 0 ≤ℤ amount
  unfolding transfer_input
  transfer_input-positive enc s target amount me e = ground arith

  -- In both lock modes, whatever the packet and the interference, a transfer request leaves the
  -- sum of all balances as it was and no balance below zero, if that holds of what the other
  -- connections commit meanwhile and all points together fit an `int64` to begin with, on a
  -- connection whose `Begin`, `Commit` and `Rollback` succeed.
  pub handle_transfer-Conserves :
      (enc : Encoding) (mode : TransferLockMode) (others : ℕ → store.State → store.State) (sid : ℕ)
      (target : List ℕ) (amount : ℤ) (w : World store.State)
      → KeepsTotal others
      → Solvent (store.users w.db)
      → Conserves store laws w.db (handle_transfer store enc mode others sid target amount w).db
  unfolding handle_transfer
  handle_transfer-Conserves enc mode others sid target amount w keep v =
      elim (Result-cases (transfer_input store enc (w.sessions sid) target amount)) [
        | inl (msg, e) ↦ rw (e, handle_transfer) (v.0, refl)
        | inr (me, e) ↦
            rw
              (e, handle_transfer, answer-db sid (enc.to_utf8 (w.sessions sid).nickname) amount _ w)
              (attempts-Conserves mode me target amount others 4 0 w.db
                (transfer_input-positive enc (w.sessions sid) target amount me e) keep v)
      ]
