-- ===== src/Tests/Queue.antt =====
-- The job queue of src/utils/threadpool.c, on jobs that are numbers.
use baka_dns.Base.{ℕ, ◌≡◌, refl, List, [], ◌∷◌, none, some, replicate, ◌++◌, All, arith}
use baka_dns.Threadpool.{
  JobQueue, PushStatus, pushed, full, queue_init, queue_push, queue_front, queue_pop, pull_job,
  threadpool_add_job,
}
use baka_dns.Threadpool.Workers.{
  Phase, looking, working, Pool, init_threadpool, somebody, sleep, take_job, begin_job, Reaches,
  initialized, accept, work, exit_job,
}
use baka_dns.Threadpool.Workers.Drain.{Works, Reaches-drain}
use baka_dns.Threadpool.Workers.Jobs.{Counts, HasJob, Reaches-n_threads_free, Reaches-jobs}
use baka_dns.Threadpool.Fifo.{
  IsQueue, Holds, queue_init-IsQueue, QueueOp, add, pull, status, job_of, slots, run, run_fifo,
  run-run_fifo,
}

abbrev script : List (QueueOp ℕ)
script = pull ∷ add 7 ∷ add 8 ∷ pull ∷ add 9 ∷ pull ∷ pull ∷ pull ∷ []

replies :
    run (queue_init {Job = ℕ}) script
    ≡ job_of (some none)
      ∷ status pushed
      ∷ status pushed
      ∷ job_of (some (some 7))
      ∷ status pushed
      ∷ job_of (some (some 8))
      ∷ job_of (some (some 9))
      ∷ job_of (some none)
      ∷ []
unfolding run queue_init baka_dns.Threadpool.pull_job baka_dns.Threadpool.threadpool_add_job
    baka_dns.Threadpool.queue_front queue_push baka_dns.Threadpool.queue_pop
replies = refl

empty : Holds (queue_init {Job = ℕ}) []
unfolding queue_init slots
empty = refl

run-run_fifo_example : run (queue_init {Job = ℕ}) script ≡ run_fifo [] script
run-run_fifo_example = run-run_fifo script queue_init [] queue_init-IsQueue empty

-- The queue with one job, and without it again.
abbrev one_job : JobQueue ℕ
one_job = (threadpool_add_job queue_init 7).1

abbrev no_job : JobQueue ℕ
no_job = (pull_job one_job).1

abbrev crew : List (Phase ℕ)
crew = replicate 9 looking

-- The second thread goes to sleep, the job 7 is added and wakes it, and the third thread takes it and
-- begins it.
abbrev at_work : Pool ℕ
at_work = record {
  n_threads_free = 11;
  n_threads = 12;
  queue = no_job;
  threads = looking ∷ looking ∷ working (some 7) ∷ crew;
}

woken : Reaches (7 ∷ []) [] (record at_work {
  n_threads_free = 12;
  queue = one_job;
  threads = looking ∷ looking ∷ looking ∷ crew;
})
unfolding init_threadpool threadpool_add_job queue_push queue_init
woken =
    accept 7 one_job (looking ∷ looking ∷ looking ∷ crew)
      (work initialized (sleep (looking ∷ []) (looking ∷ crew) refl refl)) refl
      (somebody (looking ∷ []) (looking ∷ crew))

at_work_reached : Reaches (7 ∷ []) (7 ∷ []) at_work
unfolding threadpool_add_job pull_job queue_push queue_front queue_init
at_work_reached =
    work (work woken (take_job (looking ∷ looking ∷ []) crew (some 7) no_job refl refl refl))
      (begin_job (looking ∷ looking ∷ []) crew (some 7) refl)

Reaches-n_threads_free_example : Counts at_work
Reaches-n_threads_free_example = Reaches-n_threads_free at_work_reached

Reaches-jobs_example :
    (jobs : List ℕ) × IsQueue at_work.queue
    × Holds at_work.queue jobs
    × ((7 ∷ []) ++ jobs ≡ 7 ∷ [])
    × All HasJob at_work.threads
Reaches-jobs_example = Reaches-jobs at_work_reached

-- The job 7 ends its thread, another thread sleeps, and the job 8 is added and wakes it.
abbrev waiting_job : Pool ℕ
waiting_job = record at_work {
  queue = (threadpool_add_job no_job 8).1;
  threads = looking ∷ looking ∷ crew;
}

waiting_job_reached : Reaches (7 ∷ 8 ∷ []) (7 ∷ []) waiting_job
unfolding threadpool_add_job queue_push pull_job queue_front queue_init queue_pop
waiting_job_reached =
    accept 8 _ (looking ∷ looking ∷ crew)
      (work (exit_job (looking ∷ looking ∷ []) crew (some 7) at_work_reached refl)
        (sleep [] (looking ∷ crew) refl refl))
      refl (somebody [] (looking ∷ crew))

Reaches-drain_example :
    (p' : Pool ℕ) × Works (7 ∷ []) waiting_job (7 ∷ 8 ∷ []) p'
    × Reaches (7 ∷ 8 ∷ []) (7 ∷ 8 ∷ []) p'
    × (p'.queue.len ≡ 0)
Reaches-drain_example = Reaches-drain waiting_job_reached (omega arith)
