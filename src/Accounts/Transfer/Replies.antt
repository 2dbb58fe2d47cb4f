-- ===== src/Accounts/Transfer/Replies.antt =====
-- What `Handle_C_TRANSFER` of Server/Network/ClientPacketHandler.cpp sends.
use asio_chat_server.Common.{
  ℕ, zero, suc, ◌+◌, ◌≤◌, ◌<◌, ◌≡◌, refl, ap, ◌∙◌, ◌⊎◌, inl, inr, Option-cases, List, ◌∷◌, arith,
  String, Bool, true, false,
}
use asio_chat_server.Common.Int.{ℤ}
use asio_chat_server.Network.Reply.{s_transfer, s_transfer_received}
use asio_chat_server.Network.World.{World}
use asio_chat_server.Network.SessionManager.{get_session}
use asio_chat_server.Network.RoomHandlers.{Encoding}
use asio_chat_server.Accounts.Store.{Store}
use asio_chat_server.Accounts.Prelude.{Result-cases}
use asio_chat_server.Accounts.Transfer.{
  TransferLockMode, Attempt, refused, done, retry, attempt, attempts, answer, transfer_input,
  handle_transfer,
}

-- The loop was left by a refusal or by a transfer, in one of the turns up to `last`.
abbrev pub Ended : {S : Type 0} → ℕ → Attempt × ℕ × S → Type 0
Ended last (refused msg, k, st) = k ≤ last
Ended last (done from to, k, st) = k < last
Ended last (retry, k, st) = ⊥

module _ (store : Store) where
  attempts-Ended :
      (mode : TransferLockMode) (me : ℕ) (target : List ℕ) (amount : ℤ)
      (others : ℕ → store.State → store.State) (left k : ℕ) (st : store.State)
      → Ended (k + left) (attempts store mode me target amount others left k st)
  unfolding attempts
  attempts-Ended mode me target amount others zero k st = omega arith
  attempts-Ended mode me target amount others (suc left) k st =
      ended (attempt store mode me target amount (others k) st).0 _
        (rw (← plus_suc) (attempts-Ended mode me target amount others left (k + 1) _))
    where
      plus_suc : k + 1 + left ≡ k + suc left
      plus_suc = omega arith

      ended :
          (a : Attempt) (st' : store.State)
          → Ended (k + suc left) (attempts store mode me target amount others left (k + 1) st')
          → Ended (k + suc left) (elim a as (λ _. Attempt × ℕ × store.State) [
            | refused msg ↦ (refused msg, k, st')
            | done from to ↦ (done from to, k, st')
            | retry ↦ attempts store mode me target amount others left (k + 1) st'
          ])
      ended (refused msg) st' r = omega arith
      ended (done from to) st' r = omega arith
      ended retry st' r = r

  -- Turns whose interference is the same end alike.
  attempts-agree :
      (mode : TransferLockMode) (me : ℕ) (target : List ℕ) (amount : ℤ)
      (others others' : ℕ → store.State → store.State) (left k : ℕ) (st : store.State)
      → ((i : ℕ) → i < k + left → others i ≡ others' i)
      → attempts store mode me target amount others left k st
        ≡ attempts store mode me target amount others' left k st
  unfolding attempts
  attempts-agree mode me target amount others others' zero k st same = refl
  attempts-agree mode me target amount others others' (suc left) k st same =
      ap
        (λ (o : store.State → store.State).
          next (attempt store mode me target amount o st)
            (attempts store mode me target amount others left (k + 1)))
        (same k (omega arith))
      ∙ next-agree (attempt store mode me target amount (others' k) st) (λ st'.
        attempts-agree mode me target amount others others' left (k + 1) st'
          (λ i h. same i (omega arith)))
    where
      next :
          Attempt × store.State
          → (store.State → Attempt × ℕ × store.State)
          → Attempt × ℕ × store.State
      next (a, st') rest = elim a [
        | refused msg ↦ (refused msg, k, st')
        | done from to ↦ (done from to, k, st')
        | retry ↦ rest st'
      ]

      next-agree :
          (r : Attempt × store.State)
          → ((st' : store.State)
              → attempts store mode me target amount others left (k + 1) st'
                ≡ attempts store mode me target amount others' left (k + 1) st')
          → next r (attempts store mode me target amount others left (k + 1))
            ≡ next r (attempts store mode me target amount others' left (k + 1))
      next-agree (refused msg, st') agree = refl
      next-agree (done from to, st') agree = refl
      next-agree (retry, st') agree = agree st'

  -- The packets that a handler adds: one reply to the requester, and before the next request at
  -- most one notice, to the session of the receiver and only of a transfer that was done.
  abbrev pub Replied : ℕ → World store.State → World store.State → Type 0
  Replied sid w w' =
      ((ok : Bool) × (msg : String) × (balance : ℤ) × (turn : ℕ) × (turn < 4)
        × (w'.sent ≡ (sid, s_transfer ok msg balance turn) ∷ w.sent))
      ⊎ ((other : ℕ) × (name : List ℕ) × (amount theirs mine : ℤ) × (msg : String) × (turn : ℕ)
          × (turn < 4)
          × (w'.sent
              ≡ (other, s_transfer_received name amount theirs)
                ∷ (sid, s_transfer true msg mine turn)
                ∷ w.sent))

  answer-Replied :
      (sid : ℕ) (name : List ℕ) (amount : ℤ) (r : Attempt × ℕ × store.State) (w : World store.State)
      → Ended 4 r
      → Replied sid w (answer store sid name amount r w)
  unfolding answer
  answer-Replied sid name amount (refused msg, k, st) w h =
      inl (false, msg, _, 0, omega arith, refl)
  answer-Replied sid name amount (retry, k, st) w h = absurd h
  answer-Replied sid name amount (done from to, k, st) w h =
      elim (Option-cases (get_session to.id w.online)) [
        | inl e ↦ inl (true, "Transfer complete", from.balance, k, h, rw (e, answer) refl)
        | inr (other, e) ↦ inr (
          other,
          name,
          amount,
          to.balance,
          from.balance,
          "Transfer complete",
          k,
          h,
          rw (e, answer) refl,
        )
      ]

  -- In both lock modes, whatever the database answers and however often the flush conflicts, the
  -- loop of a transfer request makes at most four attempts: what others commit in a fifth makes no
  -- difference, and no reply counts more than three retries. The requester gets exactly one reply;
  -- beside it at most one notice is sent, and only with a reply of success.
  pub handle_transfer-Replied :
      (enc : Encoding) (mode : TransferLockMode) (others others' : ℕ → store.State → store.State)
      (sid : ℕ) (target : List ℕ) (amount : ℤ) (w : World store.State)
      → ((i : ℕ) → i < 4 → others i ≡ others' i)
      → Replied sid w (handle_transfer store enc mode others sid target amount w)
        × (handle_transfer store enc mode others sid target amount w
            ≡ handle_transfer store enc mode others' sid target amount w)
  unfolding handle_transfer
  handle_transfer-Replied enc mode others others' sid target amount w same =
      elim (Result-cases (transfer_input store enc (w.sessions sid) target amount)) [
        | inl (msg, e) ↦ rw (e, handle_transfer) (inl (false, msg, _, 0, omega arith, refl), refl)
        | inr (me, e) ↦
            rw (e, handle_transfer)
              (
                answer-Replied sid (enc.to_utf8 (w.sessions sid).nickname) amount _ w
                    (attempts-Ended mode me target amount others 4 0 w.db),
                ap (λ r. answer store sid (enc.to_utf8 (w.sessions sid).nickname) amount r w)
                    (attempts-agree mode me target amount others others' 4 0 w.db same),
              )
      ]
