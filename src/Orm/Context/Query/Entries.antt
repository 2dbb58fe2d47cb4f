-- ===== src/Orm/Context/Query/Entries.antt =====
-- The objects of an identity map (Server/DB/ORM/DBContext.h) after a new entry.
use asio_chat_server.Common.{
  ℕ, suc, ◌<◌, ◌≡◌, ◌≢◌, refl, false, List, [], ◌∷◌, arith, if_both, All, contains,
}
use asio_chat_server.Orm.Meta.{DbValue}
use asio_chat_server.Orm.Context.{IdentityMap, register_in_identity_map, same_key}

abbrev pub objects_of : IdentityMap → List ℕ
objects_of [] = []
objects_of ((k, o) ∷ m) = o ∷ objects_of m

abbrev pub Apart : List ℕ → Type 0
Apart [] = Unit
Apart (o ∷ os) = (contains o os ≡ false) × Apart os

pub register-absent :
    (x o : ℕ) (k : ℕ × DbValue) (m : IdentityMap)
    → x ≢ o
    → contains x (objects_of m) ≡ false
    → contains x (objects_of (register_in_identity_map k o m)) ≡ false
unfolding register_in_identity_map
register-absent x o k [] d h = ground arith
register-absent x o k ((j, p) ∷ m) d h =
    if_both (λ (n : IdentityMap). contains x (objects_of n) ≡ false) (same_key k j) ((k, o) ∷ m)
      ((j, p) ∷ register_in_identity_map k o m) (ground arith)
      (let rest = register-absent x o k m d (ground arith) in ground (arith, rest))

pub register-Apart :
    (o : ℕ) (k : ℕ × DbValue) (m : IdentityMap)
    → contains o (objects_of m) ≡ false
    → Apart (objects_of m)
    → Apart (objects_of (register_in_identity_map k o m))
unfolding register_in_identity_map
register-Apart o k [] h a = (refl, tt)
register-Apart o k ((j, p) ∷ m) h (first, a) =
    if_both (λ (n : IdentityMap). Apart (objects_of n)) (same_key k j) ((k, o) ∷ m)
      ((j, p) ∷ register_in_identity_map k o m) (ground arith, a)
      (register-absent p o k m (λ e. ground arith) first, register-Apart o k m (ground arith) a)

pub register-below :
    (n o : ℕ) (k : ℕ × DbValue) (m : IdentityMap)
    → o < n
    → All (λ x. x < n) (objects_of m)
    → All (λ x. x < n) (objects_of (register_in_identity_map k o m))
unfolding register_in_identity_map
register-below n o k [] l b = (l, tt)
register-below n o k ((j, p) ∷ m) l (first, b) =
    if_both (λ (m' : IdentityMap). All (λ x. x < n) (objects_of m')) (same_key k j) ((k, o) ∷ m)
      ((j, p) ∷ register_in_identity_map k o m) (l, b) (first, register-below n o k m l b)

pub below-absent : (n : ℕ) (os : List ℕ) → All (λ x. x < n) os → contains n os ≡ false
below-absent n [] b = refl
below-absent n (o ∷ os) (l, b) = ground (arith, below-absent n os b)

pub below-suc : (n : ℕ) (os : List ℕ) → All (λ x. x < n) os → All (λ x. x < suc n) os
below-suc n [] b = tt
below-suc n (o ∷ os) (l, b) = (omega arith, below-suc n os b)
