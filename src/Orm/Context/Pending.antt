-- ===== src/Orm/Context/Pending.antt =====
-- The list of changes of a `DbContext` (Server/DB/ORM/DBContext.h): which objects it names.
use asio_chat_server.Common.{
  ℕ, ◌≡◌, refl, ◌⊎◌, inl, inr, Bool, true, false, not, ◌&&◌, ◌||◌, List, [], ◌∷◌, ◌++◌, ◌==◌, arith,
  if_both, Bool-cases,
}
use asio_chat_server.Orm.Meta.{Object}
use asio_chat_server.Orm.Connection.{Odbc}
use asio_chat_server.Orm.Context.{
  ChangeEntry, modified, IdentityMap, new_entry, is_added, has_change_for, remove_changes,
  cancel_added,
}
use asio_chat_server.Orm.Context.Save.{any_dirty, scan}

-- No object has two entries.
abbrev pub Distinct : List ChangeEntry → Type 0
Distinct [] = Unit
Distinct (c ∷ cs) = (has_change_for c.obj cs ≡ false) × Distinct cs

has_change_for-append :
    (o : ℕ) (cs ds : List ChangeEntry)
    → has_change_for o (cs ++ ds) ≡ (has_change_for o cs || has_change_for o ds)
unfolding has_change_for
has_change_for-append o [] ds = refl
has_change_for-append o (c ∷ cs) ds = ground (arith, has_change_for-append o cs ds)

pub Distinct-snoc :
    (cs : List ChangeEntry) (c : ChangeEntry)
    → Distinct cs
    → has_change_for c.obj cs ≡ false
    → Distinct (cs ++ c ∷ [])
unfolding has_change_for
Distinct-snoc [] c d h = (refl, tt)
Distinct-snoc (b ∷ cs) c (first, d) h = (
  ground (arith, has_change_for-append b.obj cs (c ∷ []), first, h),
  Distinct-snoc cs c d (ground arith),
)

-- The entries of a part of a list, in order, up to what they hold besides the object.
abbrev pub PartOf : List ChangeEntry → List ChangeEntry → Type 0
PartOf [] ds = Unit
PartOf (c ∷ cs) [] = ⊥
PartOf (c ∷ cs) (d ∷ ds) = ((c.obj ≡ d.obj) × PartOf cs ds) ⊎ PartOf (c ∷ cs) ds

PartOf-absent :
    (o : ℕ) (cs ds : List ChangeEntry)
    → PartOf cs ds
    → has_change_for o ds ≡ false
    → has_change_for o cs ≡ false
unfolding has_change_for
PartOf-absent o [] ds p h = refl
PartOf-absent o (c ∷ cs) [] p h = absurd p
PartOf-absent o (c ∷ cs) (d ∷ ds) (inl (e, p)) h =
    let rest = PartOf-absent o cs ds p (ground arith) in ground (arith, rest, e)
PartOf-absent o (c ∷ cs) (d ∷ ds) (inr p) h = PartOf-absent o (c ∷ cs) ds p (ground arith)

pub PartOf-Distinct : (cs ds : List ChangeEntry) → PartOf cs ds → Distinct ds → Distinct cs
PartOf-Distinct [] ds p d = tt
PartOf-Distinct (c ∷ cs) [] p d = absurd p
PartOf-Distinct (c ∷ cs) (b ∷ ds) (inl (e, p)) (first, d) =
    (PartOf-absent c.obj cs ds p (rw e first), PartOf-Distinct cs ds p d)
PartOf-Distinct (c ∷ cs) (b ∷ ds) (inr p) (first, d) = PartOf-Distinct (c ∷ cs) ds p d

pub PartOf-skip : (cs ds : List ChangeEntry) (d : ChangeEntry) → PartOf cs ds → PartOf cs (d ∷ ds)
PartOf-skip [] ds d p = tt
PartOf-skip (c ∷ cs) ds d p = inr p

pub PartOf-refl : (cs : List ChangeEntry) → PartOf cs cs
PartOf-refl [] = tt
PartOf-refl (c ∷ cs) = inl (refl, PartOf-refl cs)

pub remove_changes-PartOf : (o : ℕ) (cs : List ChangeEntry) → PartOf (remove_changes o cs) cs
unfolding remove_changes
remove_changes-PartOf o [] = tt
remove_changes-PartOf o (c ∷ cs) =
    let p = remove_changes-PartOf o cs in
    if_both (λ ds. PartOf ds (c ∷ cs)) (c.obj == o) (remove_changes o cs) (c ∷ remove_changes o cs)
      (PartOf-skip (remove_changes o cs) cs c p) (inl (refl, p))

pub remove_changes-absent :
    (o : ℕ) (cs : List ChangeEntry) → has_change_for o (remove_changes o cs) ≡ false
unfolding remove_changes has_change_for
remove_changes-absent o [] = refl
remove_changes-absent o (c ∷ cs) = ground (arith, remove_changes-absent o cs)

pub cancel_added-PartOf : (o : ℕ) (cs : List ChangeEntry) → PartOf (cancel_added o cs).1 cs
unfolding cancel_added
cancel_added-PartOf o [] = tt
cancel_added-PartOf o (c ∷ cs) =
    let p = cancel_added-PartOf o cs in
    let (found, rest) = cancel_added o cs in
    if_both (λ (r : Bool × List ChangeEntry). PartOf r.1 (c ∷ cs)) (c.obj == o && is_added c.op)
      (true, rest) (found, c ∷ rest) (PartOf-skip rest cs c p) (inl (refl, p))

pub scan-Distinct :
    (odbc : Odbc) (heap : ℕ → Object) (m : IdentityMap) (cs : List ChangeEntry)
    → Distinct cs
    → Distinct (scan heap m cs)
unfolding scan
scan-Distinct odbc heap [] cs d = d
scan-Distinct odbc heap (((t, pk), o) ∷ m) cs d =
    elim (Bool-cases (has_change_for o cs || not (any_dirty (heap o)))) [
      | inl skipped ↦ rw (skipped, scan) (scan-Distinct odbc heap m cs d)
      | inr pushed ↦
          rw (pushed, scan)
            (scan-Distinct odbc heap m (cs ++ new_entry modified t o ∷ [])
              (Distinct-snoc cs (new_entry modified t o) d (ground arith)))
    ]
