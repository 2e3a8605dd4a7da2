-- ===== src/Threadpool/Fifo.antt =====
-- The circular array of src/utils/threadpool.c and a first-in first-out list of at most 128 jobs.
use baka_dns.Base.{
  ℕ, zero, suc, ◌+◌, ◌-◌, ◌%◌, ◌≤◌, ◌<◌, ◌≡◌, ◌≢◌, refl, sym, ap, ap₂, ◌∙◌, Option, none, some,
  List, [], ◌∷◌, ◌++◌, map, leb, if◌then◌else◌, get_elem?, set, length, length-set, arith, inl, inr,
  Bool-cases, leb→le, leb-lt, ==_ne, length-map, le→leb, lt→leb, map-append,
}
use baka_dns.Threadpool.{
  JobQueue, PushStatus, pushed, full, qindex_inc, queue_init, queue_push, queue_front, queue_pop,
  pull_job, threadpool_add_job,
}

module _ {Job : Type 0} where
  -- The representation invariant of `struct jobqueue`.
  pub record IsQueue (q : JobQueue Job) : Type 0 where
    pub storage : length q.queue ≡ 128
    pub front_in : q.front < 128
    pub back_in : q.back < 128
    pub len_in : q.len ≤ 128
    pub joined : (q.front + q.len) % 128 ≡ (q.back + 1) % 128

  -- The slots of `n` jobs from index `i` on, going round at 128.
  unfoldable pub slots : List (Option Job) → ℕ → ℕ → List (Option (Option Job))
  slots queue i zero = []
  slots queue i (suc n) = get_elem? queue i ∷ slots queue ((i + 1) % 128) n

  -- The queue holds the jobs of a list, oldest first.
  abbrev pub Holds : JobQueue Job → List Job → Type 0
  Holds q jobs = slots q.queue q.front q.len ≡ map (λ j. some (some j)) jobs

  get_elem?-set_ne :
      (xs : List (Option Job)) (i j : ℕ) (v : Option Job)
      → i ≢ j
      → get_elem? (set xs i v) j ≡ get_elem? xs j
  get_elem?-set_ne [] i j v h = refl
  get_elem?-set_ne (x ∷ xs) zero zero v h = absurd (h refl)
  get_elem?-set_ne (x ∷ xs) zero (suc j) v h = refl
  get_elem?-set_ne (x ∷ xs) (suc i) zero v h = refl
  get_elem?-set_ne (x ∷ xs) (suc i) (suc j) v h = get_elem?-set_ne xs i j v (λ e. h (ap suc e))

  get_elem?-set_self :
      (xs : List (Option Job)) (i : ℕ) (v : Option Job)
      → i < length xs
      → get_elem? (set xs i v) i ≡ some v
  get_elem?-set_self [] i v h = absurd (omega arith)
  get_elem?-set_self (x ∷ xs) zero v h = refl
  get_elem?-set_self (x ∷ xs) (suc i) v h = get_elem?-set_self xs i v (omega arith)

  -- Writing the slot behind the last job appends it.
  slots-set :
      (queue : List (Option Job)) (job : Job) (n i k : ℕ)
      → length queue ≡ 128
      → i < 128
      → n < 128
      → k ≡ (i + n) % 128
      → slots (set queue k (some job)) i (suc n) ≡ slots queue i n ++ (some (some job) ∷ [])
  unfolding slots
  slots-set queue job zero i k s hi hn e =
      let here : k ≡ i = omega arith in
      ap (λ x. x ∷ []) (rw here (get_elem?-set_self queue i (some job) (omega arith)))
  slots-set queue job (suc n) i k s hi hn e =
      ap₂ ◌∷◌ (get_elem?-set_ne queue k i (some job) (omega arith))
        (slots-set queue job n ((i + 1) % 128) k s (omega arith) (omega arith) (omega arith))

  pub queue_init-IsQueue : IsQueue queue_init
  unfolding queue_init
  queue_init-IsQueue = record {
    storage = refl;
    front_in = omega arith;
    back_in = omega arith;
    len_in = omega arith;
    joined = refl;
  }

  pub queue_push-IsQueue : (q : JobQueue Job) (job : Job) → IsQueue q → IsQueue (queue_push q job).1
  unfolding queue_push
  queue_push-IsQueue q job v = ground (arith, length-set q.queue (qindex_inc q.back) (some job))

  queue_pop-IsQueue : (q : JobQueue Job) → IsQueue q → IsQueue (queue_pop q)
  unfolding queue_pop
  queue_pop-IsQueue q v = ground arith

  pub pull_job-IsQueue : (q : JobQueue Job) → IsQueue q → IsQueue (pull_job q).1
  unfolding pull_job
  pull_job-IsQueue q v = queue_pop-IsQueue q v

  qindex_inc_joined : (q : JobQueue Job) → IsQueue q → qindex_inc q.back ≡ (q.front + q.len) % 128
  unfolding qindex_inc
  qindex_inc_joined q v = sym v.joined

  length-slots : (queue : List (Option Job)) (i n : ℕ) → length (slots queue i n) ≡ n
  unfolding slots
  length-slots queue i zero = refl
  length-slots queue i (suc n) = ap suc (length-slots queue ((i + 1) % 128) n)

  pub length-Holds : (q : JobQueue Job) (jobs : List Job) → Holds q jobs → length jobs ≡ q.len
  length-Holds q jobs h =
      sym (length-map jobs (λ j. some (some j)))
      ∙ ap length (sym h)
      ∙ length-slots q.queue q.front q.len

-- What a client asks of the queue, and what it sees.
pub data QueueOp (Job : Type 0) : Type 0 where
  add : Job → QueueOp Job
  pull : QueueOp Job

pub data Reply (Job : Type 0) : Type 0 where
  status : PushStatus → Reply Job
  job_of : Option (Option Job) → Reply Job

module _ {Job : Type 0} where
  -- The calls on the circular array.
  unfoldable pub run : JobQueue Job → List (QueueOp Job) → List (Reply Job)
  run q [] = []
  run q (add job ∷ ops) = let (s, q') = threadpool_add_job q job in status s ∷ run q' ops
  run q (pull ∷ ops) = let (j, q') = pull_job q in job_of j ∷ run q' ops

  -- The same calls on a first-in first-out list of at most 128 jobs.
  unfoldable pub run_fifo : List Job → List (QueueOp Job) → List (Reply Job)
  run_fifo jobs [] = []
  run_fifo jobs (add job ∷ ops) =
      let over = run_fifo jobs ops in
      let under = run_fifo (jobs ++ (job ∷ [])) ops in
      if leb 128 (length jobs) then status full ∷ over else status pushed ∷ under
  run_fifo [] (pull ∷ ops) = job_of (some none) ∷ run_fifo [] ops
  run_fifo (j ∷ jobs) (pull ∷ ops) = job_of (some (some j)) ∷ run_fifo jobs ops

  pub push_full : (q : JobQueue Job) (job : Job) → 128 ≤ q.len → queue_push q job ≡ (full, q)
  unfolding queue_push
  push_full q job h = rw (le→leb 128 q.len h)

  pub push_pushed :
      (q : JobQueue Job) (job : Job) (jobs : List Job)
      → IsQueue q
      → Holds q jobs
      → q.len < 128
      → ((queue_push q job).0 ≡ pushed) × Holds (queue_push q job).1 (jobs ++ (job ∷ []))
  unfolding queue_push
  push_pushed q job jobs v h lt =
      let e : (q.len + 1) % 256 ≡ suc q.len = omega arith in
      let place : qindex_inc q.back ≡ (q.front + q.len) % 128 = qindex_inc_joined q v in
      rw (lt→leb 128 q.len lt) (
        refl,
        rw e (
            slots-set q.queue job q.len q.front (qindex_inc q.back) v.storage v.front_in lt place
            ∙ ap (λ (l : List (Option (Option Job))). l ++ (some (some job) ∷ [])) h
            ∙ sym (map-append (λ j. some (some j)) jobs (job ∷ []))),
      )

  pull_empty : (q : JobQueue Job) → q.len ≡ 0 → pull_job q ≡ (some none, q)
  unfolding pull_job queue_front queue_pop
  pull_empty q e = ground arith

  pub pull_front :
      (q : JobQueue Job) (j : Job) (jobs : List Job)
      → IsQueue q
      → Holds q (j ∷ jobs)
      → ((pull_job q).0 ≡ some (some j)) × Holds (pull_job q).1 jobs
  unfolding pull_job queue_front queue_pop slots
  pull_front q j jobs v h =
      let m = q.len - 1 in
      let some_job = length-Holds q (j ∷ jobs) h in
      let e : q.len ≡ suc m = omega arith in
      let cells : get_elem? q.queue q.front ∷ slots q.queue ((q.front + 1) % 128) m
          ≡ some (some j) ∷ map (λ j. some (some j)) jobs =
        ap (slots q.queue q.front) (sym e) ∙ h in
      let fewer : (q.len + 255) % 256 ≡ m = omega arith in
      (
        rw (==_ne q.len 0 (omega arith)) (cc cells),
        rw (==_ne q.len 0 (omega arith), fewer) (cc cells),
      )

  -- From any queue that holds a list of jobs, no sequence of `threadpool_add_job` and `pull_job`
  -- calls tells the circular array from the first-in first-out list of at most 128 jobs: the same
  -- adds are refused, and the same jobs come out, in the same order.
  pub run-run_fifo :
      (ops : List (QueueOp Job)) (q : JobQueue Job) (jobs : List Job)
      → IsQueue q
      → Holds q jobs
      → run q ops ≡ run_fifo jobs ops
  unfolding run run_fifo threadpool_add_job
  run-run_fifo [] q jobs v h = refl
  run-run_fifo (add job ∷ ops) q jobs v h =
      let size = length-Holds q jobs h in
      elim (Bool-cases (leb 128 q.len)) [
        | inl over ↦
            rw (size, over, push_full q job (leb→le _ _ over))
              (ap (◌∷◌ (status full)) (run-run_fifo ops q jobs v h))
        | inr under ↦
            let (s, h') = push_pushed q job jobs v h (leb-lt _ _ under) in
            rw (size, under, s)
              (ap (◌∷◌ (status pushed)) (
                run-run_fifo ops (queue_push q job).1 (jobs ++ (job ∷ []))
                  (queue_push-IsQueue q job v) h'))
      ]
  run-run_fifo (pull ∷ ops) q [] v h =
      rw (pull_empty q (sym (length-Holds q [] h)))
        (ap (◌∷◌ (job_of (some none))) (run-run_fifo ops q [] v h))
  run-run_fifo (pull ∷ ops) q (j ∷ jobs) v h =
      let (e, h') = pull_front q j jobs v h in
      ap₂ ◌∷◌ (ap job_of e) (run-run_fifo ops (pull_job q).1 jobs (pull_job-IsQueue q v) h')
