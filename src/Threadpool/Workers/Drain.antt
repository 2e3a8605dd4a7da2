-- ===== src/Threadpool/Workers/Drain.antt =====
-- The threads of src/utils/threadpool.c empty the queue.
use baka_dns.Base.{
  ◌+◌, ◌%◌, ◌<◌, ◌≡◌, refl, sym, ap, subst, Option, some, List, [], ◌∷◌, ◌++◌, ◌==◌, ==_ne, length,
  append_assoc, append-nil, arith, inl, inr,
}
use baka_dns.Threadpool.{pull_job}
use baka_dns.Threadpool.Fifo.{IsQueue, Holds, pull_job-IsQueue, pull_front, length-Holds}
use baka_dns.Threadpool.Workers.{
  Phase, looking, asleep, taken, working, IsAwake, Pool, Work, take_job, begin_job, finish_job,
  Reaches, work,
}
use baka_dns.Threadpool.Workers.Threads.{lookers, sleepers, signal_around_if}
use baka_dns.Threadpool.Workers.Jobs.{Reaches-jobs}
use baka_dns.Threadpool.Workers.Wakeups.{Watched, Reaches-Watched}

module _ {Job : Type 0} where
  -- Any number of steps of `thread_work`, with no call of `threadpool_add_job` and no other wake-up.
  pub data Works : List Job → Pool Job → List Job → Pool Job → Type 0 where
    rest : {s : List Job} {p : Pool Job} → Works s p s p
    then :
        {s s1 s' : List Job} {p p1 p' : Pool Job}
        → Work s p s1 p1
        → Works s1 p1 s' p'
        → Works s p s' p'

  Works-trans :
      {s s' s'' : List Job} {p p' p'' : Pool Job}
      → Works s p s' p'
      → Works s' p' s'' p''
      → Works s p s'' p''
  Works-trans rest k = k
  Works-trans (then w v) k = then w (Works-trans v k)

  -- The steps of the threads are steps of the run.
  Works-Reaches :
      {a s s' : List Job} {p p' : Pool Job} → Works s p s' p' → Reaches a s p → Reaches a s' p'
  Works-Reaches rest r = r
  Works-Reaches (then w v) r = Works-Reaches v (work r w)

  -- A thread that is not asleep, and where it stands.
  record AwakeAt (ts : List (Phase Job)) : Type 0 where
    pub before : List (Phase Job)
    pub thread : Phase Job
    pub after : List (Phase Job)
    pub awake : IsAwake thread
    pub parts : ts ≡ before ++ (thread ∷ after)

  behind : (t : Phase Job) (ts : List (Phase Job)) → AwakeAt ts → AwakeAt (t ∷ ts)
  behind t ts w = record {
    before = t ∷ w.before;
    thread = w.thread;
    after = w.after;
    awake = w.awake;
    parts = ap (◌∷◌ t) w.parts;
  }

  find_looking : (ts : List (Phase Job)) → 0 < lookers ts → AwakeAt ts
  find_looking [] h = absurd (omega arith)
  find_looking (looking ∷ ts) h = record {
    before = [];
    thread = looking;
    after = ts;
    awake = tt;
    parts = refl;
  }
  find_looking (asleep ∷ ts) h = behind asleep ts (find_looking ts h)
  find_looking (taken job ∷ ts) h = behind (taken job) ts (find_looking ts h)
  find_looking (working job ∷ ts) h = behind (working job) ts (find_looking ts h)

  first_awake : (ts : List (Phase Job)) → sleepers ts ≡ 0 → 0 < length ts → AwakeAt ts
  first_awake [] e h = absurd (omega arith)
  first_awake (asleep ∷ ts) e h = absurd (omega arith)
  first_awake (looking ∷ ts) e h = record {
    before = [];
    thread = looking;
    after = ts;
    awake = tt;
    parts = refl;
  }
  first_awake (taken job ∷ ts) e h = record {
    before = [];
    thread = taken job;
    after = ts;
    awake = tt;
    parts = refl;
  }
  first_awake (working job ∷ ts) e h = record {
    before = [];
    thread = working job;
    after = ts;
    awake = tt;
    parts = refl;
  }

  -- If there is a job, some thread is awake.
  Watched-AwakeAt :
      (p : Pool Job) → Watched p → 0 < length p.threads → 0 < p.queue.len → AwakeAt p.threads
  Watched-AwakeAt p (inl awake) some_thread some_job = first_awake p.threads awake some_thread
  Watched-AwakeAt p (inr enough) some_thread some_job = find_looking p.threads (omega arith)

  -- A thread comes to look for a job, with the queue as it is.
  record Ready (s : List Job) (p : Pool Job) : Type 0 where
    pub pool : Pool Job
    pub before : List (Phase Job)
    pub after : List (Phase Job)
    pub works : Works s p s pool
    pub same : pool.queue ≡ p.queue
    pub parts : pool.threads ≡ before ++ (looking ∷ after)

  finishes :
      (s : List Job) (p : Pool Job) (before after : List (Phase Job)) (job : Option Job)
      → p.threads ≡ before ++ (working job ∷ after)
      → Ready s p
  finishes s p before after job e =
      let (b, a, k) = signal_around_if ((p.n_threads_free + 1) % 256 == p.n_threads) before after in
      record {
        pool = record p {
          n_threads_free = (p.n_threads_free + 1) % 256;
          threads = b ++ (looking ∷ a);
        };
        before = b;
        after = a;
        works = then (finish_job before after (b ++ (looking ∷ a)) job e k) rest;
        same = refl;
        parts = refl;
      }

  come_to_look :
      (s : List Job) (p : Pool Job) (before after : List (Phase Job)) (t : Phase Job)
      → IsAwake t
      → p.threads ≡ before ++ (t ∷ after)
      → Ready s p
  come_to_look s p before after looking h e = record {
    pool = p;
    before = before;
    after = after;
    works = rest;
    same = refl;
    parts = e;
  }
  come_to_look s p before after asleep h e = absurd h
  come_to_look s p before after (taken job) h e =
      let p1 : Pool Job = record p {
        n_threads_free = (p.n_threads_free + 255) % 256;
        threads = before ++ (working job ∷ after);
      } in
      let r = finishes s p1 before after job refl in
      record {
        pool = r.pool;
        before = r.before;
        after = r.after;
        works = then (begin_job before after job e) r.works;
        same = r.same;
        parts = r.parts;
      }
  come_to_look s p before after (working job) h e = finishes s p before after job e

  drain :
      (jobs s : List Job) (p : Pool Job)
      → (0 < length jobs → AwakeAt p.threads)
      → IsQueue p.queue
      → Holds p.queue jobs
      → (p' : Pool Job) × Works s p (s ++ jobs) p' × (p'.queue.len ≡ 0)
  drain [] s p w v h =
      (p, subst (λ l. Works s p l p) (sym (append-nil s)) rest, sym (length-Holds p.queue [] h))
  drain (j ∷ jobs) s p w v h =
      let t = w (omega arith) in
      let r = come_to_look s p t.before t.after t.thread t.awake t.parts in
      let p1 = r.pool in
      let v1 : IsQueue p1.queue = subst IsQueue (sym r.same) v in
      let h1 : Holds p1.queue (j ∷ jobs) = subst (λ q. Holds q (j ∷ jobs)) (sym r.same) h in
      let (front, h2) = pull_front p1.queue j jobs v1 h1 in
      let q = (pull_job p1.queue).1 in
      let p2 : Pool Job = record p1 {
        queue = q;
        threads = r.before ++ (taken (some j) ∷ r.after);
      } in
      let next : AwakeAt p2.threads = record {
        before = r.before;
        thread = taken (some j);
        after = r.after;
        awake = tt;
        parts = refl;
      } in
      let (p3, w3, done) =
        drain jobs (s ++ (j ∷ [])) p2 (λ _. next) (pull_job-IsQueue p1.queue v1) h2 in
      let some_job =
        ==_ne p1.queue.len 0 (λ z. omega (arith, length-Holds p1.queue (j ∷ jobs) h1)) in
      let w2 =
        then (take_job r.before r.after (some j) q r.parts some_job (ap (λ i. (i, q)) front)) w3 in
      (
        p3,
        subst (λ l. Works s p l p3) (append_assoc s (j ∷ []) jobs) (Works-trans r.works w2),
        done,
      )

  -- From every pool that a run reaches, in which a thread is left, the threads can go on, each job that
  -- they take returning, until the queue is empty and all accepted jobs have been taken, in the order in
  -- which they were accepted. No call of `threadpool_add_job` and no wake-up other than by the signal of
  -- `thread_work` is needed for it.
  pub Reaches-drain :
      {a s : List Job} {p : Pool Job}
      → Reaches a s p
      → 0 < length p.threads
      → (p' : Pool Job) × Works s p a p' × Reaches a a p' × (p'.queue.len ≡ 0)
  Reaches-drain {a} {s} {p} r some_thread =
      let (jobs, v, h, all, _) = Reaches-jobs r in
      let n = length-Holds p.queue jobs h in
      let (p', w, empty) =
        drain jobs s p (λ k. Watched-AwakeAt p (Reaches-Watched r) some_thread (omega arith)) v h in
      let w' : Works s p a p' = subst (λ b. Works s p b p') all w in
      (p', w', Works-Reaches w' r, empty)
