-- ===== src/Accounts/Store/Rows.antt =====
-- What changes of the `User` table (Server/DB/Entities/Entities.h) do to the sum of its balances.
use asio_chat_server.Common.{
  ℕ, ◌≡◌, ◌≢◌, ap, true, false, some, List, [], ◌∷◌, ◌++◌, arith, Bool-cases, Option-cases, inl,
  inr, ◌⊎◌,
}
use asio_chat_server.Common.Int.{ℤ, pos, pos_part, neg_part, ◌+ℤ◌, ◌≤ℤ◌, int_laws}
use asio_chat_server.Accounts.Store.{
  User, Friendship, add_user, modify_user, eq_ℤ, eq_user, replace_user, apply_changes,
}

abbrev pub total : List User → ℤ
total [] = pos 0
total (u ∷ us) = u.balance +ℤ total us

abbrev pub NoneNegative : List User → Type 0
NoneNegative [] = Unit
NoneNegative (u ∷ us) = (pos 0 ≤ℤ u.balance) × NoneNegative us

eq_ℤ_sound : (a b : ℤ) → eq_ℤ a b ≡ true → a ≡ b
eq_ℤ_sound a b h = ground arith

eq_user_sound : (u v : User) → eq_user u v ≡ true → (u.id ≡ v.id) × (u.balance ≡ v.balance)
eq_user_sound u v h = ground (arith, eq_ℤ_sound u.balance v.balance)

pub total-nonneg : (us : List User) → NoneNegative us → pos 0 ≤ℤ total us
total-nonneg [] n = omega arith
total-nonneg (u ∷ us) n = omega (int_laws, total-nonneg us n.1)

-- The two ways in which an update of a table succeeds.
replace_user-cons :
    (old new u : User) (us vs : List User)
    → replace_user old new (u ∷ us) ≡ some vs
    → ((eq_user u old ≡ true) × (vs ≡ new ∷ us))
      ⊎ ((eq_user u old ≡ false)
          × ((ws : List User) × (replace_user old new us ≡ some ws) × (vs ≡ u ∷ ws)))
unfolding replace_user
replace_user-cons old new u us vs e = elim (Bool-cases (eq_user u old)) [
  | inl hit ↦ inl (hit, ground arith)
  | inr miss ↦ elim (Option-cases (replace_user old new us)) [
    | inl no_row ↦ absurd (ground arith)
    | inr (ws, row) ↦ inr (miss, (ws, row, ground arith))
  ]
]

pub total-replace_user :
    (old new : User) (us vs : List User)
    → replace_user old new us ≡ some vs
    → total vs +ℤ old.balance ≡ total us +ℤ new.balance
total-replace_user old new [] vs e = unfold replace_user in cc
total-replace_user old new (u ∷ us) vs e = elim (replace_user-cons old new u us vs e) [
  | inl (hit, same) ↦ rw same (
      omega (
        int_laws,
        ap pos_part (eq_user_sound u old hit).1,
        ap neg_part (eq_user_sound u old hit).1,
      ))
  | inr (miss, (ws, row, same)) ↦
      let ih = total-replace_user old new us ws row in
      rw same (omega (int_laws, ap pos_part ih, ap neg_part ih))
]

pub replace_user-NoneNegative :
    (old new : User) (us vs : List User)
    → replace_user old new us ≡ some vs
    → NoneNegative us
    → pos 0 ≤ℤ new.balance
    → NoneNegative vs
replace_user-NoneNegative old new [] vs e n h = unfold replace_user in cc
replace_user-NoneNegative old new (u ∷ us) vs e n h = elim (replace_user-cons old new u us vs e) [
  | inl (hit, same) ↦ rw same (h, n.1)
  | inr (miss, (ws, row, same)) ↦ rw same (n.0, replace_user-NoneNegative old new us ws row n.1 h)
]

-- A row that an update found holds no more than the whole table.
pub balance-le-total :
    (old new : User) (us vs : List User)
    → replace_user old new us ≡ some vs
    → NoneNegative us
    → old.balance ≤ℤ total us
balance-le-total old new [] vs e n = unfold replace_user in cc
balance-le-total old new (u ∷ us) vs e n = elim (replace_user-cons old new u us vs e) [
  | inl (hit, same) ↦ omega (
    int_laws,
    ap pos_part (eq_user_sound u old hit).1,
    ap neg_part (eq_user_sound u old hit).1,
    total-nonneg us n.1,
  )
  | inr (miss, (ws, row, same)) ↦ omega (int_laws, balance-le-total old new us ws row n.1)
]

-- Two rows with different ids that two updates found hold no more than the whole table.
pub balances-le-total :
    (a a' b b' : User) (us vs ws : List User)
    → a'.id ≢ b.id
    → replace_user a a' us ≡ some vs
    → replace_user b b' vs ≡ some ws
    → NoneNegative us
    → a.balance +ℤ b.balance ≤ℤ total us
balances-le-total a a' b b' [] vs ws d e f n = unfold replace_user in cc
balances-le-total a a' b b' (u ∷ us) vs ws d e f n = elim (replace_user-cons a a' u us vs e) [
  | inl (hit, same) ↦ elim (replace_user-cons b b' a' us ws (rw (← same) f)) [
    | inl (hit', _) ↦ absurd (d (eq_user_sound a' b hit').0)
    | inr (_, (_, row, _)) ↦ omega (
      int_laws,
      ap pos_part (eq_user_sound u a hit).1,
      ap neg_part (eq_user_sound u a hit).1,
      balance-le-total b b' us _ row n.1,
    )
  ]
  | inr (miss, (us', row, same)) ↦ elim (replace_user-cons b b' u us' ws (rw (← same) f)) [
    | inl (hit', _) ↦ omega (
      int_laws,
      ap pos_part (eq_user_sound u b hit').1,
      ap neg_part (eq_user_sound u b hit').1,
      balance-le-total a a' us us' row n.1,
    )
    | inr (_, (ws', row', _)) ↦
        omega (int_laws, balances-le-total a a' b b' us us' ws' d row row' n.1)
  ]
]

-- Two updates that were applied one after the other.
pub apply_changes-two :
    (fresh : ℕ → ℕ) (a a' b b' : User) (us ws : List User) (fs gs : List Friendship)
    → apply_changes fresh (modify_user a a' ∷ modify_user b b' ∷ []) (us, fs) ≡ some (ws, gs)
    → (vs : List User) × (replace_user a a' us ≡ some vs) × (replace_user b b' vs ≡ some ws)
unfolding apply_changes
apply_changes-two fresh a a' b b' us ws fs gs e = elim (Option-cases (replace_user a a' us)) [
  | inl no_row ↦ absurd (ground arith)
  | inr (vs, row) ↦ elim (Option-cases (replace_user b b' vs)) [
    | inl no_row ↦ absurd (ground arith)
    | inr (xs, row') ↦ (vs, row, ground arith)
  ]
]

pub balance-nonneg :
    (old new : User) (us vs : List User)
    → replace_user old new us ≡ some vs
    → NoneNegative us
    → pos 0 ≤ℤ old.balance
balance-nonneg old new [] vs e n = unfold replace_user in cc
balance-nonneg old new (u ∷ us) vs e n = elim (replace_user-cons old new u us vs e) [
  | inl (hit, same) ↦
      omega
        (int_laws, ap pos_part (eq_user_sound u old hit).1, ap neg_part (eq_user_sound u old hit).1)
  | inr (miss, (ws, row, same)) ↦ balance-nonneg old new us ws row n.1
]

-- The second of two updates found a row of the table before the first.
pub second_balance-nonneg :
    (a a' b b' : User) (us vs ws : List User)
    → a'.id ≢ b.id
    → replace_user a a' us ≡ some vs
    → replace_user b b' vs ≡ some ws
    → NoneNegative us
    → pos 0 ≤ℤ b.balance
second_balance-nonneg a a' b b' [] vs ws d e f n = unfold replace_user in cc
second_balance-nonneg a a' b b' (u ∷ us) vs ws d e f n = elim (replace_user-cons a a' u us vs e) [
  | inl (hit, same) ↦ elim (replace_user-cons b b' a' us ws (rw (← same) f)) [
    | inl (hit', _) ↦ absurd (d (eq_user_sound a' b hit').0)
    | inr (_, (_, row, _)) ↦ balance-nonneg b b' us _ row n.1
  ]
  | inr (miss, (us', row, same)) ↦ elim (replace_user-cons b b' u us' ws (rw (← same) f)) [
    | inl (hit', _) ↦
        omega
          (int_laws, ap pos_part (eq_user_sound u b hit').1, ap neg_part (eq_user_sound u b hit').1)
    | inr (_, (ws', row', _)) ↦ second_balance-nonneg a a' b b' us us' ws' d row row' n.1
  ]
]

-- An insertion alone puts the row behind the others.
pub apply_changes-add_user :
    (fresh : ℕ → ℕ) (u : User) (us vs : List User) (fs gs : List Friendship)
    → apply_changes fresh (add_user u ∷ []) (us, fs) ≡ some (vs, gs)
    → vs ≡ us ++ record u { id = fresh 0 } ∷ []
unfolding apply_changes
apply_changes-add_user fresh u us vs fs gs e = ground arith
