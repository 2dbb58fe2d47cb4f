-- ===== src/Tests/Jobs.antt =====
-- A run of ServerCore/JobQueue.cpp.
use asio_chat_server.Common.{ℕ, ◌≤◌, ◌≡◌, refl, true, false, [], ◌∷◌, ◌++◌, length}
use asio_chat_server.ServerCore.JobQueue.{
  JobQueue, empty_queue, adds, enqueues, collects, executes, subtracts, fetch_add, fetch_sub,
  enqueue, collect, execute_job, Reach, here, next,
}
use asio_chat_server.ServerCore.JobQueue.Order.{lefts, jobs-order, jobs-drained}

-- Two jobs are pushed, and the first runs.
abbrev one_run : JobQueue ℕ
one_run = record {
  job_count = 2;
  jobs = [];
  pushing = [];
  due = 0;
  batches = record { left = 8 ∷ []; size = 2 } ∷ [];
  queued = 7 ∷ 8 ∷ [];
  executed = 7 ∷ [];
}

runs_one : Reach empty_queue one_run
unfolding fetch_add enqueue collect execute_job
runs_one =
    next
      (next
        (next
          (next (next (next here (adds 7)) (adds 8)) (enqueues 7 true ((8, false) ∷ []) [] refl))
          (enqueues 8 false [] [] refl))
        (collects 0 refl))
      (executes 7 (8 ∷ []) 2 [] [] refl)

jobs-order_example :
    (length one_run.batches ≤ 1)
    × (one_run.queued ≡ one_run.executed ++ (lefts one_run.batches ++ one_run.jobs))
jobs-order_example = jobs-order runs_one

-- Both jobs have run, and the thread has left the queue.
abbrev all_run : JobQueue ℕ
all_run = record {
  job_count = 0;
  jobs = [];
  pushing = [];
  due = 0;
  batches = [];
  queued = 7 ∷ 8 ∷ [];
  executed = 7 ∷ 8 ∷ [];
}

runs_all : Reach empty_queue all_run
unfolding execute_job fetch_sub
runs_all = next (next runs_one (executes 8 [] 2 [] [] refl)) (subtracts 2 [] [] refl)

jobs-drained_example : all_run.queued ≡ 7 ∷ 8 ∷ []
jobs-drained_example = jobs-drained runs_all refl refl refl
