-- ===== src/Threadpool/Workers/Wakeups.antt =====
-- No wake-up of src/utils/threadpool.c is lost: while a thread sleeps, a thread looks for each job.
use baka_dns.Base.{
  suc, ◌+◌, ◌≤◌, ◌≡◌, refl, ap, false, Option, List, ◌∷◌, ◌++◌, ◌==◌, arith, inl, inr, ◌⊎◌,
}
use baka_dns.Threadpool.{
  JobQueue, PushStatus, pushed, full, queue_push, queue_pop, pull_job, threadpool_add_job,
}
use baka_dns.Threadpool.Fifo.{IsQueue}
use baka_dns.Threadpool.Workers.{
  Phase, looking, asleep, taken, working, Pool, init_threadpool, Signalled, Work, sleep, take_job,
  begin_job, finish_job, Reaches, initialized, accept, refuse, work, wake, exit_job,
}
use baka_dns.Threadpool.Workers.Threads.{
  lookers, sleepers, counts-append, Signalled-Woken, SignalledIf-Woken,
}
use baka_dns.Threadpool.Workers.Jobs.{Reaches-jobs}

module _ {Job : Type 0} where
  -- No thread sleeps, or at least as many threads look for a job as there are jobs.
  abbrev pub Watched : Pool Job → Type 0
  Watched p = (sleepers p.threads ≡ 0) ⊎ (p.queue.len ≤ lookers p.threads)

  add_len : (q : JobQueue Job) (job : Job) → (threadpool_add_job q job).1.len ≤ q.len + 1
  unfolding threadpool_add_job queue_push
  add_len q job = ground arith

  pull_len : (q : JobQueue Job) → IsQueue q → (q.len == 0) ≡ false → suc (pull_job q).1.len ≡ q.len
  unfolding pull_job queue_pop
  pull_len q v some_job = ground (arith, v.len_in)

  -- A call of `threadpool_add_job`, accepted or not, and its signal.
  signal-Watched :
      (p : Pool Job) (q : JobQueue Job) (job : Job) (status : PushStatus) (ts : List (Phase Job))
      → threadpool_add_job p.queue job ≡ (status, q)
      → Signalled p.threads ts
      → Watched p
      → Watched (record p { queue = q; threads = ts })
  signal-Watched p q job status ts e k w =
      let n : (threadpool_add_job p.queue job).1.len ≡ q.len =
        ap (λ (r : PushStatus × JobQueue Job). r.1.len) e in
      let woken = Signalled-Woken k in
      elim woken.one [
        | inl none_left ↦ inl none_left
        | inr one_more ↦ elim w [
          | inl awake ↦ inl (omega (arith, woken.sleepers_le))
          | inr enough ↦ inr (omega (arith, add_len p.queue job))
        ]
      ]

  -- A thread that does not sleep moves on to a phase in which it does not sleep.
  Work-Watched :
      {s s' : List Job} {p p' : Pool Job}
      → Work s p s' p'
      → IsQueue p.queue
      → Watched p
      → Watched p'
  Work-Watched (sleep before after at e) v w = inr (ground (arith, e))
  Work-Watched {p} (take_job before after job q at e f) v w =
      let a = counts-append before (looking ∷ after) in
      let b = counts-append before (taken job ∷ after) in
      let n : (pull_job p.queue).1.len ≡ q.len =
        ap (λ (r : Option (Option Job) × JobQueue Job). r.1.len) f in
      elim w [
        | inl awake ↦ inl (omega (arith, ap sleepers at, a.sleepers_lem, b.sleepers_lem))
        | inr enough ↦
            inr (omega (arith, pull_len p.queue v e, ap lookers at, a.lookers_lem, b.lookers_lem))
      ]
  Work-Watched (begin_job before after job at) v w =
      let a = counts-append before (taken job ∷ after) in
      let b = counts-append before (working job ∷ after) in
      elim w [
        | inl awake ↦ inl (omega (arith, ap sleepers at, a.sleepers_lem, b.sleepers_lem))
        | inr enough ↦ inr (omega (arith, ap lookers at, a.lookers_lem, b.lookers_lem))
      ]
  Work-Watched (finish_job before after ts job at k) v w =
      let a = counts-append before (working job ∷ after) in
      let b = counts-append before (looking ∷ after) in
      let (_, _, l, m) = SignalledIf-Woken _ (before ++ (looking ∷ after)) ts k in
      elim w [
        | inl awake ↦ inl (omega (arith, ap sleepers at, a.sleepers_lem, b.sleepers_lem, m))
        | inr enough ↦ inr (omega (arith, ap lookers at, a.lookers_lem, b.lookers_lem, l))
      ]

  -- In every pool that a run reaches, no thread sleeps, or at least as many threads look for a job as
  -- there are jobs in the queue: no wake-up is lost, whichever threads the signals wake, and also when
  -- jobs end their threads.
  pub Reaches-Watched : {a s : List Job} {p : Pool Job} → Reaches a s p → Watched p
  unfolding init_threadpool
  Reaches-Watched initialized = inl refl
  Reaches-Watched (accept {p} job q ts r e k) =
      signal-Watched p q job pushed ts e k (Reaches-Watched r)
  Reaches-Watched (refuse {p} job q ts r e k) =
      signal-Watched p q job full ts e k (Reaches-Watched r)
  Reaches-Watched (work r w) = Work-Watched w (Reaches-jobs r).1 (Reaches-Watched r)
  Reaches-Watched (wake before after r at) =
      let a = counts-append before (asleep ∷ after) in
      let b = counts-append before (looking ∷ after) in
      elim (Reaches-Watched r) [
        | inl awake ↦ inl (omega (arith, ap sleepers at, a.sleepers_lem, b.sleepers_lem))
        | inr enough ↦ inr (omega (arith, ap lookers at, a.lookers_lem, b.lookers_lem))
      ]
  Reaches-Watched (exit_job before after job r at) =
      let a = counts-append before (working job ∷ after) in
      let b = counts-append before after in
      elim (Reaches-Watched r) [
        | inl awake ↦ inl (omega (arith, ap sleepers at, a.sleepers_lem, b.sleepers_lem))
        | inr enough ↦ inr (omega (arith, ap lookers at, a.lookers_lem, b.lookers_lem))
      ]
