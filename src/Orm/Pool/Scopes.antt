-- ===== src/Orm/Pool/Scopes.antt =====
-- Which scopes hold the connections of a `DBConnectionPool` (Server/DB/DBConnectionPool.cpp).
use asio_chat_server.Common.{
  ℕ, zero, suc, ◌+◌, ◌≤◌, ◌≡◌, refl, sym, ap, ◌∙◌, Bool, true, some, List, [], ◌∷◌, ◌++◌, ◌==◌,
  arith, if◌then◌else◌, if_both, some_injective, none≢some, Option-cases, inl, inr,
}
use asio_chat_server.Orm.Pool.{
  new_pool, connect_all, connect, keep_front, pop, push, Usage, Step, opens, closes, Steps, no_step,
  next_step,
}

abbrev pub count : ℕ → List ℕ → ℕ
count k [] = 0
count k (c ∷ cs) = let rest = count k cs in if c == k then suc rest else rest

count-append : (k : ℕ) (a b : List ℕ) → count k (a ++ b) ≡ count k a + count k b
count-append k [] b = omega arith
count-append k (c ∷ cs) b = ground (arith, count-append k cs b)

abbrev spread : ℕ → ℕ × List ℕ → ℕ
spread k (c, rest) = count k rest + count k (c ∷ [])

pop-count : (k : ℕ) (cs : List ℕ) (r : ℕ × List ℕ) → pop cs ≡ some r → count k cs ≡ spread k r
unfolding pop
pop-count k [] r e = absurd (none≢some r e)
pop-count k (d ∷ []) r e = omega (arith, ap (spread k) (some_injective (d, []) r e))
pop-count k (d ∷ b ∷ cs) r e = elim (Option-cases (pop (b ∷ cs))) [
  | inl gone ↦ absurd (none≢some r (sym (ap (keep_front d) gone) ∙ e))
  | inr ((last, rest), found) ↦
      let same = some_injective (last, d ∷ rest) r (sym (ap (keep_front d) found) ∙ e) in
      ground (arith, ap (spread k) same, pop-count k (b ∷ cs) (last, rest) found)
]

step-count :
    (k : ℕ) (u v : Usage)
    → Step u v
    → count k v.idle + count k v.scoped ≡ count k u.idle + count k u.scoped
unfolding push
step-count k _ _ (opens c rest u e) = ground (arith, pop-count k u.idle (c, rest) e)
step-count k _ _ (closes c before behind u e) = omega (
  arith,
  ap (count k) e,
  count-append k before (c ∷ behind),
  count-append k before behind,
  count-append k u.idle (c ∷ []),
  count-append k (c ∷ []) behind,
)

pub Steps-count :
    (k : ℕ) (u v : Usage)
    → Steps u v
    → count k v.idle + count k v.scoped ≡ count k u.idle + count k u.scoped
Steps-count k u _ (no_step _) = refl
Steps-count k u v (next_step _ w _ s ss) = Steps-count k w v ss ∙ step-count k u w s

-- The connections that `Connect` makes are all different.
connect_all-count :
    (opened : ℕ → Bool) (k i n : ℕ) (conns : List ℕ)
    → (i ≤ k → count k conns ≡ 0)
    → count k conns ≤ 1
    → count k (connect_all opened i n conns).1 ≤ 1
unfolding connect_all
connect_all-count opened k i zero conns fresh h = h
connect_all-count opened k i (suc n) conns fresh h =
    let added = count-append k conns (i ∷ []) in
    let rest =
      connect_all-count opened k (suc i) n (conns ++ i ∷ []) (λ later. ground (arith, added, fresh))
        (ground (arith, added, fresh)) in
    if_both (λ (r : Bool × List ℕ). count k r.1 ≤ 1) (opened i) _ _ rest h

-- After `Connect`, whatever scopes are opened and closed, the pool and the scopes that are alive
-- have together just the connections that it made, none of them twice: no two scopes share one, and
-- none is lost.
pub Steps-exclusive :
    (opened : ℕ → Bool) (n : ℕ) (v : Usage)
    → Steps (record { idle = (connect true true opened n new_pool).1.connections; scoped = [] }) v
    → (k : ℕ)
    → (count k v.idle + count k v.scoped
        ≡ count k (connect true true opened n new_pool).1.connections)
      × (count k v.idle + count k v.scoped ≤ 1)
unfolding connect
Steps-exclusive opened n v ss k =
    let kept = Steps-count k _ v ss in
    let single = connect_all-count opened k 0 n [] (λ _. refl) (omega arith) in
    (omega (arith, kept), omega (arith, kept, single))
