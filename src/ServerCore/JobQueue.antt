-- ===== src/ServerCore/JobQueue.antt =====
-- ServerCore/JobQueue.cpp: `Push` and `Execute`, as the steps of the threads between which others
-- run: an atomic access of the counter, a section under the mutex, or the run of one job. A queue
-- that is due waits in the global queue, or a thread is about to run its `Execute`.
pub mod Order
use asio_chat_server.Common.{
  ℕ, suc, ◌+◌, ◌-◌, ◌≡◌, Bool, true, false, List, [], ◌∷◌, ◌++◌, ◌==◌, if◌then◌else◌, length,
}

-- What `Execute` holds between taking the jobs and subtracting from the counter: the jobs of
-- `CurrentJobs` that are not run yet, and `iJobSize`.
pub record Batch {ℓ} (A : Type ℓ) : Type ℓ where
  pub left : List A
  pub size : ℕ

-- `pushing` are the threads in `Push` that have the counter behind them, with their test
-- `iPrevCount == 0`; `queued` and `executed` record the jobs in order.
pub record JobQueue {ℓ} (A : Type ℓ) : Type ℓ where
  pub job_count : ℕ
  pub jobs : List A
  pub pushing : List (A × Bool)
  pub due : ℕ
  pub batches : List (Batch A)
  pub queued : List A
  pub executed : List A

module _ {ℓ} {A : Type ℓ} where
  -- `iJobCount.fetch_add(1)`
  unfoldable pub fetch_add : A → JobQueue A → JobQueue A
  fetch_add a q = record q {
    job_count = q.job_count + 1;
    pushing = (a, q.job_count == 0) ∷ q.pushing;
  }

  -- `Jobs.push`, and for the first job the choice to run `Execute` or to hand the queue over.
  unfoldable pub enqueue : A → Bool → List (A × Bool) → JobQueue A → JobQueue A
  enqueue a first others q = record q {
    jobs = q.jobs ++ a ∷ [];
    pushing = others;
    due = if first then q.due + 1 else q.due;
    queued = q.queued ++ a ∷ [];
  }

  -- The section of `Execute` that empties the queue, for one of `n + 1` due turns.
  unfoldable pub collect : ℕ → JobQueue A → JobQueue A
  collect n q = record q {
    jobs = [];
    due = n;
    batches = record { left = q.jobs; size = length q.jobs } ∷ q.batches;
  }

  -- `CurrentJobs[i]->Execute()`
  unfoldable pub execute_job : A → List A → ℕ → List (Batch A) → JobQueue A → JobQueue A
  execute_job a rest size others q = record q {
    batches = record { left = rest; size = size } ∷ others;
    executed = q.executed ++ a ∷ [];
  }

  -- `iJobCount.fetch_sub(iJobSize) == iJobSize` ends the run; otherwise the loop goes on, here or
  -- by way of the global queue.
  unfoldable pub fetch_sub : ℕ → List (Batch A) → JobQueue A → JobQueue A
  fetch_sub size others q = record q {
    job_count = q.job_count - size;
    batches = others;
    due = if q.job_count == size then q.due else q.due + 1;
  }

  abbrev pub empty_queue : JobQueue A
  empty_queue = record {
    job_count = 0;
    jobs = [];
    pushing = [];
    due = 0;
    batches = [];
    queued = [];
    executed = [];
  }

  pub data Step (q : JobQueue A) : JobQueue A → Type ℓ where
    adds : (a : A) → Step q (fetch_add a q)
    enqueues :
        (a : A) (first : Bool) (before after : List (A × Bool))
        → q.pushing ≡ before ++ (a, first) ∷ after
        → Step q (enqueue a first (before ++ after) q)
    collects : (n : ℕ) → q.due ≡ suc n → Step q (collect n q)
    executes :
        (a : A) (rest : List A) (size : ℕ) (before after : List (Batch A))
        → q.batches ≡ before ++ record { left = a ∷ rest; size = size } ∷ after
        → Step q (execute_job a rest size (before ++ after) q)
    subtracts :
        (size : ℕ) (before after : List (Batch A))
        → q.batches ≡ before ++ record { left = []; size = size } ∷ after
        → Step q (fetch_sub size (before ++ after) q)

  pub data Reach (q : JobQueue A) : JobQueue A → Type ℓ where
    here : Reach q q
    next : {p r : JobQueue A} → Reach q p → Step p r → Reach q r
