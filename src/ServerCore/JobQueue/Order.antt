-- ===== src/ServerCore/JobQueue/Order.antt =====
-- The jobs of a queue run one at a time and in the order in which they were queued, and none is
-- forgotten (ServerCore/JobQueue.cpp).
use mathlib.Core.List.{append_assoc, append-nil}
use asio_chat_server.Common.{
  ℕ, suc, ◌+◌, ◌≤◌, ◌≡◌, refl, ap, Bool, true, false, List, [], ◌∷◌, ◌++◌, arith, ◌==◌,
  if◌then◌else◌, length, length-append,
}
use asio_chat_server.ServerCore.JobQueue.{
  Batch, JobQueue, fetch_add, enqueue, collect, execute_job, fetch_sub, empty_queue, Step, adds,
  enqueues, collects, executes, subtracts, Reach, here, next,
}

none_left {ℓ} : {B : Type ℓ} (xs : List B) → length xs ≡ 0 → xs ≡ []
none_left [] h = refl
none_left (x ∷ xs) h = absurd (omega arith)

module _ {ℓ} {A : Type ℓ} where
  abbrev pub firsts : List (A × Bool) → ℕ
  firsts [] = 0
  firsts ((a, first) ∷ ps) = let rest = firsts ps in if first then suc rest else rest

  abbrev pub sizes : List (Batch A) → ℕ
  sizes [] = 0
  sizes (b ∷ bs) = b.size + sizes bs

  abbrev pub lefts : List (Batch A) → List A
  lefts [] = []
  lefts (b ∷ bs) = b.left ++ lefts bs

  -- One thread is responsible for a queue that has jobs: the one that pushed the first job, one
  -- that is due to run the queue, or one that runs it.
  pub record IsValid (q : JobQueue A) : Type ℓ where
    pub tokens : firsts q.pushing + (q.due + length q.batches) ≡ (if q.job_count == 0 then 0 else 1)
    pub counted : q.job_count ≡ length q.pushing + (length q.jobs + sizes q.batches)
    pub ordered : q.queued ≡ q.executed ++ (lefts q.batches ++ q.jobs)

  firsts-append : (ps qs : List (A × Bool)) → firsts (ps ++ qs) ≡ firsts ps + firsts qs
  firsts-append [] qs = omega arith
  firsts-append ((a, true) ∷ ps) qs = omega (arith, firsts-append ps qs)
  firsts-append ((a, false) ∷ ps) qs = firsts-append ps qs

  -- The batch of the only thread that runs the queue.
  only_batch :
      (b : Batch A) (before after : List (Batch A)) (q : JobQueue A)
      → q.batches ≡ before ++ b ∷ after
      → IsValid q
      → (before ≡ []) × (after ≡ []) × (q.batches ≡ b ∷ [])
  only_batch b [] [] q e v = (refl, refl, e)
  only_batch b [] (c ∷ after) q e v = absurd (ground (arith, ap length e, v.tokens))
  only_batch b (c ∷ before) after q e v =
      absurd (ground (arith, ap length e, v.tokens, length-append before (b ∷ after)))

  add-IsValid : (a : A) (q : JobQueue A) → IsValid q → IsValid (fetch_add a q)
  unfolding fetch_add
  add-IsValid a q v = record {
    tokens = ground (arith, v.tokens);
    counted = ground (arith, v.counted);
    ordered = v.ordered;
  }

  enqueue-IsValid :
      (a : A) (first : Bool) (before after : List (A × Bool)) (q : JobQueue A)
      → q.pushing ≡ before ++ (a, first) ∷ after
      → IsValid q
      → IsValid (enqueue a first (before ++ after) q)
  unfolding enqueue
  enqueue-IsValid a first before after q e v = record {
    tokens = ground (
      arith,
      v.tokens,
      ap firsts e,
      firsts-append before ((a, first) ∷ after),
      firsts-append before after,
    );
    counted = ground (
      arith,
      v.counted,
      ap length e,
      length-append before ((a, first) ∷ after),
      length-append before after,
      length-append q.jobs (a ∷ []),
    );
    ordered = rw (v.ordered, append_assoc q.executed, append_assoc (lefts q.batches)) refl;
  }

  collect-IsValid : (n : ℕ) (q : JobQueue A) → q.due ≡ suc n → IsValid q → IsValid (collect n q)
  unfolding collect
  collect-IsValid n q e v =
      let none = none_left q.batches (ground (arith, v.tokens)) in
      record {
        tokens = ground (arith, v.tokens);
        counted = ground (arith, v.counted);
        ordered = rw (v.ordered, none, append-nil q.jobs, append-nil q.jobs) refl;
      }

  execute-IsValid :
      (a : A) (rest : List A) (size : ℕ) (before after : List (Batch A)) (q : JobQueue A)
      → q.batches ≡ before ++ record { left = a ∷ rest; size = size } ∷ after
      → IsValid q
      → IsValid (execute_job a rest size (before ++ after) q)
  unfolding execute_job
  execute-IsValid a rest size before after q e v =
      let only = only_batch _ before after q e v in
      rw (only.0, only.1)
        (record {
          tokens = ground (arith, v.tokens, ap length only.2);
          counted = ground (arith, v.counted, ap sizes only.2);
          ordered = rw (v.ordered, only.2, append_assoc q.executed) refl;
        })

  subtract-IsValid :
      (size : ℕ) (before after : List (Batch A)) (q : JobQueue A)
      → q.batches ≡ before ++ record { left = []; size = size } ∷ after
      → IsValid q
      → IsValid (fetch_sub size (before ++ after) q)
  unfolding fetch_sub
  subtract-IsValid size before after q e v =
      let only = only_batch _ before after q e v in
      rw (only.0, only.1)
        (record {
          tokens = ground (arith, v.tokens, v.counted, ap length only.2, ap sizes only.2);
          counted = ground (arith, v.counted, ap sizes only.2);
          ordered = rw (v.ordered, only.2) refl;
        })

  pub Step-IsValid : {q p : JobQueue A} → Step q p → IsValid q → IsValid p
  Step-IsValid {q} (adds a) v = add-IsValid a q v
  Step-IsValid {q} (enqueues a first before after e) v = enqueue-IsValid a first before after q e v
  Step-IsValid {q} (collects n e) v = collect-IsValid n q e v
  Step-IsValid {q} (executes a rest size before after e) v =
      execute-IsValid a rest size before after q e v
  Step-IsValid {q} (subtracts size before after e) v = subtract-IsValid size before after q e v

  empty-IsValid : IsValid empty_queue
  empty-IsValid = record { tokens = refl; counted = refl; ordered = refl }

  pub Reach-IsValid : {q p : JobQueue A} → Reach q p → IsValid q → IsValid p
  Reach-IsValid here v = v
  Reach-IsValid (next r step) v = Step-IsValid step (Reach-IsValid r v)

  -- After any interleaving of the threads that starts from an empty queue: at most one thread runs
  -- jobs or is due to run them, and the jobs that ran, with those that the running thread has taken
  -- and those that wait, are the queued jobs in their order.
  pub jobs-order :
      {q : JobQueue A}
      → Reach empty_queue q
      → (q.due + length q.batches ≤ 1) × (q.queued ≡ q.executed ++ (lefts q.batches ++ q.jobs))
  jobs-order {q} r = let v = Reach-IsValid r empty-IsValid in (ground (arith, v.tokens), v.ordered)

  -- After any such interleaving that leaves no thread in `Push`, none due and none running, every
  -- queued job has run.
  pub jobs-drained :
      {q : JobQueue A}
      → Reach empty_queue q
      → q.pushing ≡ []
      → q.due ≡ 0
      → q.batches ≡ []
      → q.queued ≡ q.executed
  jobs-drained {q} r p d b =
      let v = Reach-IsValid r empty-IsValid in
      let quiet = none_left q.jobs (ground (arith, v.tokens, v.counted, p, d, b)) in
      rw (v.ordered, b, quiet, append-nil q.executed) refl
