-- ===== src/Threadpool/Workers/Jobs.antt =====
-- The jobs and the free threads of the pools that a run of src/utils/threadpool.c reaches.
use baka_dns.Base.{
  ◌+◌, ◌≤◌, ◌≡◌, refl, sym, ap, ◌∙◌, subst, false, Option, none, some, List, [], ◌∷◌, ◌++◌, ◌==◌,
  leb, length, append_assoc, arith, Bool-cases, inl, inr, leb→le, leb-lt, All,
}
use baka_dns.Threadpool.{
  JobQueue, PushStatus, pushed, full, queue_init, pull_job, threadpool_add_job,
}
use baka_dns.Threadpool.Fifo.{
  IsQueue, Holds, slots, queue_init-IsQueue, queue_push-IsQueue, pull_job-IsQueue, push_full,
  push_pushed, pull_front, length-Holds,
}
use baka_dns.Threadpool.Workers.{
  Phase, looking, asleep, taken, working, Pool, init_threadpool, started_with, Signalled, Work,
  sleep, take_job, begin_job, finish_job, Reaches, initialized, accept, refuse, work, wake,
  exit_job,
}
use baka_dns.Threadpool.Workers.Threads.{
  busy, busy_le, counts-append, Signalled-Woken, SignalledIf-Woken, All-swap, All-remove,
  Signalled-All, SignalledIf-All,
}

module _ {Job : Type 0} where
  -- The count of free threads is the number of the threads less those at work, and there are at most
  -- as many as were created.
  pub record Counts (p : Pool Job) : Type 0 where
    pub created : p.n_threads ≡ 12
    pub few : length p.threads ≤ 12
    pub free : p.n_threads_free + busy p.threads ≡ length p.threads

  Work-Counts : {s s' : List Job} {p p' : Pool Job} → Work s p s' p' → Counts p → Counts p'
  Work-Counts (sleep before after at e) c =
      let a = counts-append before (looking ∷ after) in
      let b = counts-append before (asleep ∷ after) in
      record {
        created = c.created;
        few = omega (arith, c.few, ap length at, a.length_lem, b.length_lem);
        free = omega (
          arith,
          c.free,
          ap length at,
          ap busy at,
          a.length_lem,
          b.length_lem,
          a.busy_lem,
          b.busy_lem,
        );
      }
  Work-Counts (take_job before after job q at e f) c =
      let a = counts-append before (looking ∷ after) in
      let b = counts-append before (taken job ∷ after) in
      record {
        created = c.created;
        few = omega (arith, c.few, ap length at, a.length_lem, b.length_lem);
        free = omega (
          arith,
          c.free,
          ap length at,
          ap busy at,
          a.length_lem,
          b.length_lem,
          a.busy_lem,
          b.busy_lem,
        );
      }
  Work-Counts (begin_job before after job at) c =
      let a = counts-append before (taken job ∷ after) in
      let b = counts-append before (working job ∷ after) in
      record {
        created = c.created;
        few = omega (arith, c.few, ap length at, a.length_lem, b.length_lem);
        free = omega (
          arith,
          c.free,
          c.few,
          ap length at,
          ap busy at,
          a.length_lem,
          b.length_lem,
          a.busy_lem,
          b.busy_lem,
          busy_le before,
          busy_le after,
        );
      }
  Work-Counts (finish_job before after ts job at k) c =
      let a = counts-append before (working job ∷ after) in
      let b = counts-append before (looking ∷ after) in
      let (n, m, _, _) = SignalledIf-Woken _ (before ++ (looking ∷ after)) ts k in
      record {
        created = c.created;
        few = omega (arith, c.few, ap length at, a.length_lem, b.length_lem, n);
        free = omega (
          arith,
          c.free,
          c.few,
          ap length at,
          ap busy at,
          a.length_lem,
          b.length_lem,
          a.busy_lem,
          b.busy_lem,
          n,
          m,
        );
      }

  signal-Counts :
      (p : Pool Job) (q : JobQueue Job) (ts : List (Phase Job))
      → Signalled p.threads ts
      → Counts p
      → Counts (record p { queue = q; threads = ts })
  signal-Counts p q ts k c =
      let w = Signalled-Woken k in
      record {
        created = c.created;
        few = omega (arith, c.few, w.same_length);
        free = omega (arith, c.free, w.same_length, w.same_busy);
      }

  -- In every pool that a run reaches, the count of free threads is the number of threads less those at
  -- work: it never wraps around, and there are twelve threads at most. A thread that a job has ended with
  -- `pthread_exit` is not counted again.
  pub Reaches-n_threads_free : {a s : List Job} {p : Pool Job} → Reaches a s p → Counts p
  unfolding init_threadpool
  Reaches-n_threads_free initialized = record { created = refl; few = omega arith; free = refl }
  Reaches-n_threads_free (accept {p} job q ts r e k) =
      signal-Counts p q ts k (Reaches-n_threads_free r)
  Reaches-n_threads_free (refuse {p} job q ts r e k) =
      signal-Counts p q ts k (Reaches-n_threads_free r)
  Reaches-n_threads_free (work r w) = Work-Counts w (Reaches-n_threads_free r)
  Reaches-n_threads_free (wake before after r at) =
      let c = Reaches-n_threads_free r in
      let a = counts-append before (asleep ∷ after) in
      let b = counts-append before (looking ∷ after) in
      record {
        created = c.created;
        few = omega (arith, c.few, ap length at, a.length_lem, b.length_lem);
        free = omega (
          arith,
          c.free,
          ap length at,
          ap busy at,
          a.length_lem,
          b.length_lem,
          a.busy_lem,
          b.busy_lem,
        );
      }
  Reaches-n_threads_free (exit_job before after job r at) =
      let c = Reaches-n_threads_free r in
      let a = counts-append before (working job ∷ after) in
      let b = counts-append before after in
      record {
        created = c.created;
        few = omega (arith, c.few, ap length at, a.length_lem, b.length_lem);
        free = omega (
          arith,
          c.free,
          ap length at,
          ap busy at,
          a.length_lem,
          b.length_lem,
          a.busy_lem,
          b.busy_lem,
        );
      }

  -- The queue of a pool is valid and holds some jobs, and those taken and these are all accepted ones.
  pub record Keeps (a s : List Job) (q : JobQueue Job) : Type 0 where
    pub jobs : List Job
    pub valid : IsQueue q
    pub holds : Holds q jobs
    pub all : s ++ jobs ≡ a

  accept-Keeps :
      (a s : List Job) (q q' : JobQueue Job) (job : Job)
      → Keeps a s q
      → threadpool_add_job q job ≡ (pushed, q')
      → Keeps (a ++ (job ∷ [])) s q'
  unfolding threadpool_add_job
  accept-Keeps a s q q' job k e = elim (Bool-cases (leb 128 q.len)) [
    | inl over ↦
        let bad : full ≡ pushed =
          ap (λ (r : PushStatus × JobQueue Job). r.0)
            (sym (push_full q job (leb→le _ _ over)) ∙ e) in
        absurd (ground arith)
    | inr under ↦
        let (t, h) = push_pushed q job k.jobs k.valid k.holds (leb-lt _ _ under) in
        subst (Keeps (a ++ (job ∷ [])) s) (ap (λ (r : PushStatus × JobQueue Job). r.1) e) (record {
          jobs = k.jobs ++ (job ∷ []);
          valid = queue_push-IsQueue q job k.valid;
          holds = h;
          all = sym (append_assoc s k.jobs (job ∷ [])) ∙ ap (λ l. l ++ (job ∷ [])) k.all;
        })
  ]

  refuse-Keeps :
      (a s : List Job) (q q' : JobQueue Job) (job : Job)
      → Keeps a s q
      → threadpool_add_job q job ≡ (full, q')
      → Keeps a s q'
  unfolding threadpool_add_job
  refuse-Keeps a s q q' job k e = elim (Bool-cases (leb 128 q.len)) [
    | inl over ↦
        subst (Keeps a s)
          (ap (λ (r : PushStatus × JobQueue Job). r.1)
            (sym (push_full q job (leb→le _ _ over)) ∙ e))
          k
    | inr under ↦
        let (t, h) = push_pushed q job k.jobs k.valid k.holds (leb-lt _ _ under) in
        let bad : pushed ≡ full = sym t ∙ ap (λ (r : PushStatus × JobQueue Job). r.0) e in
        absurd (ground arith)
  ]

  take-Keeps :
      (a s : List Job) (q q' : JobQueue Job) (job : Option Job)
      → Keeps a s q
      → (q.len == 0) ≡ false
      → pull_job q ≡ (some job, q')
      → Keeps a (started_with s job) q' × ((j : Job) × (job ≡ some j))
  take-Keeps a s q q' job k some_job e = go k.jobs k.holds k.all
    where
      go :
          (jobs : List Job)
          → Holds q jobs
          → s ++ jobs ≡ a
          → Keeps a (started_with s job) q' × ((i : Job) × (job ≡ some i))
      go [] h all = absurd (ground (arith, length-Holds q [] h))
      go (j ∷ jobs) h all =
          let (t, h') = pull_front q j jobs k.valid h in
          let same : some (some j) ≡ some job =
            sym t ∙ ap (λ (r : Option (Option Job) × JobQueue Job). r.0) e in
          let it : some j ≡ job = cc same in
          (
            subst (λ i. Keeps a (started_with s i) q') it
                (subst (Keeps a (s ++ (j ∷ [])))
                  (ap (λ (r : Option (Option Job) × JobQueue Job). r.1) e)
                  (record {
                    jobs = jobs;
                    valid = pull_job-IsQueue q k.valid;
                    holds = h';
                    all = append_assoc s (j ∷ []) jobs ∙ all;
                  })),
            (j, sym it),
          )

  -- A thread that has taken a job pointer has a job.
  abbrev pub HasJob : Phase Job → Type 0
  HasJob looking = Unit
  HasJob asleep = Unit
  HasJob (taken none) = ⊥
  HasJob (taken (some job)) = Unit
  HasJob (working none) = ⊥
  HasJob (working (some job)) = Unit

  abbrev Good : List Job → List Job → Pool Job → Type 0
  Good a s p = Keeps a s p.queue × All HasJob p.threads

  Work-Good : {a s s' : List Job} {p p' : Pool Job} → Work s p s' p' → Good a s p → Good a s' p'
  Work-Good (sleep before after at e) (k, h) =
      (k, All-swap HasJob before after looking asleep (subst (All HasJob) at h) (λ _. tt))
  Work-Good {a} {s} {p = p} (take_job before after job q at e f) (k, h) =
      let (k', (j, is)) = take-Keeps a s p.queue q job k e f in
      let there : HasJob (taken job) = subst (λ i. HasJob (taken i)) (sym is) tt in
      (k', All-swap HasJob before after looking (taken job) (subst (All HasJob) at h) (λ _. there))
  Work-Good (begin_job before after none at) (k, h) = (
    k,
    All-swap HasJob before after (taken none) (working none) (subst (All HasJob) at h) (λ x. x),
  )
  Work-Good (begin_job before after (some job) at) (k, h) = (
    k,
    All-swap HasJob before after (taken (some job)) (working (some job)) (subst (All HasJob) at h)
        (λ x. x),
  )
  Work-Good (finish_job before after ts job at x) (k, h) = (
    k,
    SignalledIf-All HasJob _ (before ++ (looking ∷ after)) ts tt x
        (All-swap HasJob before after (working job) looking (subst (All HasJob) at h) (λ _. tt)),
  )

  -- In every pool that a run reaches, the queue holds, in order, the accepted jobs that no thread has
  -- taken: none is lost, taken twice, or overtaken by a later one. Every thread behind `pull_job` has a
  -- job: none has taken NULL.
  pub Reaches-jobs :
      {a s : List Job} {p : Pool Job}
      → Reaches a s p
      → (jobs : List Job) × IsQueue p.queue
        × Holds p.queue jobs
        × (s ++ jobs ≡ a)
        × All HasJob p.threads
  unfolding init_threadpool queue_init slots
  Reaches-jobs r = let (k, h) = go r in (k.jobs, k.valid, k.holds, k.all, h)
    where
      go : {a s : List Job} {p : Pool Job} → Reaches a s p → Good a s p
      go initialized = (
        record { jobs = []; valid = queue_init-IsQueue; holds = refl; all = refl },
        (tt, (tt, (tt, (tt, (tt, (tt, (tt, (tt, (tt, (tt, (tt, (tt, tt)))))))))))),
      )
      go (accept {a} {s} {p} job q ts r e k) =
          let (c, h) = go r in (accept-Keeps a s p.queue q job c e, Signalled-All HasJob tt k h)
      go (refuse {a} {s} {p} job q ts r e k) =
          let (c, h) = go r in (refuse-Keeps a s p.queue q job c e, Signalled-All HasJob tt k h)
      go (work r w) = Work-Good w (go r)
      go (wake before after r at) =
          let (c, h) = go r in
          (c, All-swap HasJob before after asleep looking (subst (All HasJob) at h) (λ _. tt))
      go (exit_job before after job r at) =
          let (c, h) = go r in
          (c, All-remove HasJob before after (working job) (subst (All HasJob) at h))
