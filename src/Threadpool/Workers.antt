-- ===== src/Threadpool/Workers.antt =====
-- The worker threads of src/utils/threadpool.c as a step relation: the calls under a mutex are the
-- steps, in any order of the threads. The condition variable `job_cv` is the threads that are asleep.
pub mod Threads
pub mod Jobs
pub mod Wakeups
pub mod Drain
use baka_dns.Base.{
  ℕ, suc, ◌+◌, ◌%◌, ◌≡◌, Bool, true, false, Option, none, some, List, [], ◌∷◌, ◌++◌, ◌==◌,
  replicate, All,
}
use baka_dns.Threadpool.{
  JobQueue, PushStatus, pushed, full, queue_init, pull_job, threadpool_add_job, default_n_threads,
}

-- Where a thread stands in the loop of `thread_work`: before the test of `pull_job`; asleep in its
-- `pthread_cond_wait`; behind it, with `job`; and between the two updates of the count of free threads.
pub data Phase (Job : Type 0) : Type 0 where
  looking asleep : Phase Job
  taken working : Option Job → Phase Job

-- `struct threadpool`; the counts are `uint8_t`. `threads` has the threads that have not ended.
pub record Pool (Job : Type 0) : Type 0 where
  pub n_threads_free : ℕ
  pub n_threads : ℕ
  pub queue : JobQueue Job
  pub threads : List (Phase Job)

module _ {Job : Type 0} where
  -- `n_threads_free` is set last in the source, before any job is added.
  unfoldable pub init_threadpool : Pool Job
  init_threadpool = record {
    n_threads_free = default_n_threads;
    n_threads = default_n_threads;
    queue = queue_init;
    threads = replicate default_n_threads looking;
  }

  abbrev pub IsAwake : Phase Job → Type 0
  IsAwake looking = Unit
  IsAwake asleep = ⊥
  IsAwake (taken job) = Unit
  IsAwake (working job) = Unit

  -- `pthread_cond_signal`: one of the sleeping threads wakes up, any of them, if there is one.
  pub data Signalled : List (Phase Job) → List (Phase Job) → Type 0 where
    nobody : {ts : List (Phase Job)} → All IsAwake ts → Signalled ts ts
    somebody :
        (before after : List (Phase Job))
        → Signalled (before ++ (asleep ∷ after)) (before ++ (looking ∷ after))

  -- The signal of `thread_work`, which is sent under a condition.
  abbrev pub SignalledIf : Bool → List (Phase Job) → List (Phase Job) → Type 0
  SignalledIf true ts ts' = Signalled ts ts'
  SignalledIf false ts ts' = ts ≡ ts'

  -- What a job pointer adds to a list of jobs.
  abbrev pub started_with : List Job → Option Job → List Job
  started_with s none = s
  started_with s (some job) = s ++ (job ∷ [])

  -- A step of `thread_work`: from a pool and the jobs that threads have taken so far to those behind it.
  pub data Work : List Job → Pool Job → List Job → Pool Job → Type 0 where
    sleep :
        {s : List Job} {p : Pool Job} (before after : List (Phase Job))
        → p.threads ≡ before ++ (looking ∷ after)
        → (p.queue.len == 0) ≡ true
        → Work s p s (record p { threads = before ++ (asleep ∷ after) })
    take_job :
        {s : List Job} {p : Pool Job} (before after : List (Phase Job)) (job : Option Job)
        (q : JobQueue Job)
        → p.threads ≡ before ++ (looking ∷ after)
        → (p.queue.len == 0) ≡ false
        → pull_job p.queue ≡ (some job, q)
        → Work s p
            (started_with s job)
            (record p { queue = q; threads = before ++ (taken job ∷ after) })
    begin_job :
        {s : List Job} {p : Pool Job} (before after : List (Phase Job)) (job : Option Job)
        → p.threads ≡ before ++ (taken job ∷ after)
        → Work s p s (record p {
          n_threads_free = (p.n_threads_free + 255) % 256;
          threads = before ++ (working job ∷ after);
        })
    finish_job :
        {s : List Job} {p : Pool Job} (before after ts : List (Phase Job)) (job : Option Job)
        → p.threads ≡ before ++ (working job ∷ after)
        → SignalledIf ((p.n_threads_free + 1) % 256 == p.n_threads) (before ++ (looking ∷ after)) ts
        → Work s p s (record p { n_threads_free = (p.n_threads_free + 1) % 256; threads = ts })

  -- The pools that a run reaches, with the jobs that `threadpool_add_job` accepted and those that
  -- threads have taken, in order. `queue_push` sends its signal in both cases.
  pub data Reaches : List Job → List Job → Pool Job → Type 0 where
    initialized : Reaches [] [] init_threadpool
    accept :
        {a s : List Job} {p : Pool Job} (job : Job) (q : JobQueue Job) (ts : List (Phase Job))
        → Reaches a s p
        → threadpool_add_job p.queue job ≡ (pushed, q)
        → Signalled p.threads ts
        → Reaches (a ++ (job ∷ [])) s (record p { queue = q; threads = ts })
    refuse :
        {a s : List Job} {p : Pool Job} (job : Job) (q : JobQueue Job) (ts : List (Phase Job))
        → Reaches a s p
        → threadpool_add_job p.queue job ≡ (full, q)
        → Signalled p.threads ts
        → Reaches a s (record p { queue = q; threads = ts })
    work : {a s s' : List Job} {p p' : Pool Job} → Reaches a s p → Work s p s' p' → Reaches a s' p'
    -- `pthread_cond_wait` may return with no signal, and a signal may wake more than one thread.
    wake :
        {a s : List Job} {p : Pool Job} (before after : List (Phase Job))
        → Reaches a s p
        → p.threads ≡ before ++ (asleep ∷ after)
        → Reaches a s (record p { threads = before ++ (looking ∷ after) })
    -- A job may end its thread with `pthread_exit`.
    exit_job :
        {a s : List Job} {p : Pool Job} (before after : List (Phase Job)) (job : Option Job)
        → Reaches a s p
        → p.threads ≡ before ++ (working job ∷ after)
        → Reaches a s (record p { threads = before ++ after })
