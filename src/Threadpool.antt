-- ===== src/Threadpool.antt =====
-- The job queue of src/utils/threadpool.c: a circular array of job pointers under a mutex.
pub mod Fifo
pub mod Workers
use baka_dns.Base.{
  ℕ, ◌+◌, ◌-◌, ◌%◌, Bool, Option, none, some, List, ltb, leb, ◌==◌, if◌then◌else◌, get_elem?, set,
  replicate,
}

abbrev pub n_threads_max : ℕ
n_threads_max = 128

abbrev pub default_n_threads : ℕ
default_n_threads = 12

-- `struct jobqueue`, for any type of jobs; a slot is NULL until it is written. `len`, `front` and
-- `back` are `uint8_t`.
pub record JobQueue (Job : Type 0) : Type 0 where
  pub queue : List (Option Job)
  pub len : ℕ
  pub front : ℕ
  pub back : ℕ

-- `QINDEX_INC`: the sum is an `int`, so only the remainder is stored.
unfoldable pub qindex_inc : ℕ → ℕ
qindex_inc x = (x + 1) % n_threads_max

pub data PushStatus : Type 0 where
  pushed full : PushStatus

module _ {Job : Type 0} where
  unfoldable pub queue_init : JobQueue Job
  queue_init = record {
    queue = replicate n_threads_max none;
    len = 0;
    front = 0;
    back = n_threads_max - 1;
  }

  -- The result, -1 for a full queue, and the queue afterwards. A write past the array changes
  -- nothing here; the invariant rules it out.
  unfoldable pub queue_push : JobQueue Job → Job → PushStatus × JobQueue Job
  unfolding qindex_inc
  queue_push q job = if leb n_threads_max q.len then (full, q) else (
    pushed,
    record q {
      back = qindex_inc q.back;
      queue = set q.queue (qindex_inc q.back) (some job);
      len = (q.len + 1) % 256;
    },
  )

  -- NULL for an empty queue, and what the slot holds otherwise; the outer option is a read past
  -- the array.
  unfoldable pub queue_front : JobQueue Job → Option (Option Job)
  queue_front q = if q.len == 0 then some none else get_elem? q.queue q.front

  unfoldable pub queue_pop : JobQueue Job → JobQueue Job
  unfolding qindex_inc
  queue_pop q =
      if q.len == 0 then q else record q { front = qindex_inc q.front; len = (q.len + 255) % 256 }

  -- `pull_job` once its wait has seen a job: the front, and the queue without it. With an empty
  -- queue it waits, which the step relation of the workers says.
  unfoldable pub pull_job : JobQueue Job → Option (Option Job) × JobQueue Job
  pull_job q = (queue_front q, queue_pop q)

  -- `threadpool_add_job`, inside its mutex.
  unfoldable pub threadpool_add_job : JobQueue Job → Job → PushStatus × JobQueue Job
  threadpool_add_job q job = queue_push q job
