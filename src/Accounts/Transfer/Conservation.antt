-- ===== src/Accounts/Transfer/Conservation.antt =====
-- A transfer of Server/Network/ClientPacketHandler.cpp neither makes nor destroys points.
use asio_chat_server.Common.{
  ℕ, ◌-◌, ◌^◌, ◌≡◌, ◌≢◌, refl, sym, ap, subst, false, some, List, arith, ltb, Bool-cases, inl, inr,
  ◌⊎◌,
}
use asio_chat_server.Common.Int.{
  ℤ, pos, pos_part, neg_part, ◌+ℤ◌, ◌-ℤ◌, ◌≤ℤ◌, ltb_ℤ, int_laws, wrap_int64_id,
}
use asio_chat_server.Accounts.Store.{
  User, Outcome, saved, conflict, failed, Store, save, replace_user, apply_changes,
}
use asio_chat_server.Accounts.Store.Save.{StoreLaws, save-saved, save-unsaved}
use asio_chat_server.Accounts.Store.Rows.{
  total, NoneNegative, total-replace_user, replace_user-NoneNegative, balances-le-total,
  second_balance-nonneg, apply_changes-two, balance-nonneg,
}
use asio_chat_server.Accounts.Transfer.{debit, credit, both_changes, flush}

-- No balance is below zero, and all points together fit an `int64`.
abbrev pub Solvent : List User → Type 0
Solvent us = NoneNegative us × (total us ≤ℤ pos (2 ^ 63 - 1))

Outcome-cases : (o : Outcome) → (o ≡ saved) ⊎ (o ≢ saved)
Outcome-cases saved = inl refl
Outcome-cases conflict = inr (λ e. cc)
Outcome-cases failed = inr (λ e. cc)

-- Two updates that keep the sum of the two rows keep the sum of the table.
two_updates :
    (a a' b b' : User) (us vs ws : List User)
    → a'.balance +ℤ b'.balance ≡ a.balance +ℤ b.balance
    → pos 0 ≤ℤ a'.balance
    → pos 0 ≤ℤ b'.balance
    → NoneNegative us
    → replace_user a a' us ≡ some vs
    → replace_user b b' vs ≡ some ws
    → NoneNegative ws × (total ws ≡ total us)
two_updates a a' b b' us vs ws same ha hb n e f =
    let first = total-replace_user a a' us vs e in
    let second = total-replace_user b b' vs ws f in
    (
      replace_user-NoneNegative b b' vs ws f (replace_user-NoneNegative a a' us vs e n ha) hb,
      omega (
        int_laws,
        ap pos_part first,
        ap neg_part first,
        ap pos_part second,
        ap neg_part second,
        ap pos_part same,
        ap neg_part same,
      ),
    )

-- The new balances when nothing wraps: both are at least 0 and their sum is the old one.
debit-credit :
    (amount : ℤ) (from to : User)
    → pos 0 ≤ℤ amount
    → amount ≤ℤ from.balance
    → pos 0 ≤ℤ to.balance
    → from.balance +ℤ to.balance ≤ℤ pos (2 ^ 63 - 1)
    → (pos 0 ≤ℤ (debit amount from).balance)
      × (pos 0 ≤ℤ (credit amount to).balance)
      × ((debit amount from).balance +ℤ (credit amount to).balance ≡ from.balance +ℤ to.balance)
unfolding debit credit
debit-credit amount from to h cover t small =
    rw
      (
        wrap_int64_id (from.balance -ℤ amount) (omega int_laws) (omega int_laws),
        wrap_int64_id (to.balance +ℤ amount) (omega int_laws) (omega int_laws),
      )
      (omega int_laws, omega int_laws, omega int_laws)

module _ (store : Store) (laws : StoreLaws store) where
  abbrev pub Conserves : store.State → store.State → Type 0
  Conserves st st' =
      NoneNegative (store.users st') × (total (store.users st') ≡ total (store.users st))

  -- Both orders of the two updates, once the database has applied them.
  both_changes-applied :
      (amount : ℤ) (from to : User) (st st' : store.State) (fresh : ℕ → ℕ)
      → pos 0 ≤ℤ amount
      → amount ≤ℤ from.balance
      → from.id ≢ to.id
      → Solvent (store.users st)
      → apply_changes fresh (both_changes amount from to) (store.users st, store.friendships st)
        ≡ some (store.users st', store.friendships st')
      → Conserves st st'
  both_changes-applied amount from to st st' fresh h cover d (n, small) e =
      elim (Bool-cases (ltb from.id to.id)) [
        | inl up ↦
            let (vs, row, row') =
              apply_changes-two fresh from (debit amount from) to (credit amount to) _ _ _ _
                (rw up at e) in
            let d' : (debit amount from).id ≢ to.id = unfold debit in d in
            let t = second_balance-nonneg from _ to _ _ vs _ d' row row' n in
            let most = balances-le-total from _ to _ _ vs _ d' row row' n in
            let moved = debit-credit amount from to h cover t (omega arith) in
            two_updates from _ to _ _ vs _ moved.2 moved.0 moved.1 n row row'
        | inr down ↦
            let (vs, row, row') =
              apply_changes-two fresh to (credit amount to) from (debit amount from) _ _ _ _
                (rw down at e) in
            let d' : (credit amount to).id ≢ from.id = unfold credit in λ same. d (sym same) in
            let t = balance-nonneg to _ _ vs row n in
            let most = balances-le-total to _ from _ _ vs _ d' row row' n in
            let moved = debit-credit amount from to h cover t (omega int_laws) in
            two_updates to _ from _ _ vs _
              (omega (int_laws, ap pos_part moved.2, ap neg_part moved.2)) moved.1 moved.0 n row
              row'
      ]

  save-Conserves :
      (amount : ℤ) (st : store.State) (from to : User)
      → pos 0 ≤ℤ amount
      → amount ≤ℤ from.balance
      → from.id ≢ to.id
      → Solvent (store.users st)
      → Conserves st (save store (both_changes amount from to) st).1
  save-Conserves amount st from to h cover d v =
      let cs = both_changes amount from to in
      elim (Outcome-cases (save store cs st).0) [
        | inl e ↦
            let (fresh, applied) = save-saved store laws cs st e in
            both_changes-applied amount from to st _ fresh h cover d v applied
        | inr e ↦ rw ((save-unsaved store laws cs st e).0) (v.0, refl)
      ]

  pub flush-Conserves :
      (amount : ℤ) (st : store.State) (from to : User)
      → pos 0 ≤ℤ amount
      → from.id ≢ to.id
      → Solvent (store.users st)
      → Conserves st (flush store amount st from to).1
  unfolding flush
  flush-Conserves amount st from to h d v = elim (Bool-cases (ltb_ℤ from.balance amount)) [
    | inl short ↦ rw short (v.0, refl)
    | inr cover ↦
        subst (λ (r : store.State). Conserves st r) (same cover)
          (save-Conserves amount st from to h (ground arith) d v)
  ]
    where
      same :
          ltb_ℤ from.balance amount ≡ false
          → (save store (both_changes amount from to) st).1 ≡ (flush store amount st from to).1
      same cover = ground arith
