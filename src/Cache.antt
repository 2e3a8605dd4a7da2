-- ===== src/Cache.antt =====
-- src/storage/cache.c: the doubly linked list of cached records behind a dummy node. The heap maps
-- addresses to nodes, and `malloc` returns the address `unused`. The mutex makes each call one step.
pub mod Segment
pub mod Walk
pub mod Put
pub mod Total
pub mod Found
pub mod History
pub mod Refresh
use baka_dns.Base.{
  ℕ, zero, suc, ◌+◌, ◌-◌, leb, ◌%◌, ◌^◌, Bool, true, false, Option, none, some, List, [], ◌∷◌, ◌==◌,
  if◌then◌else◌, ◌>>=◌,
}
use baka_dns.Message.{ResourceRecord, IntRet}
use baka_dns.Message.Name.{domain_len, strncmp_eq}
use baka_dns.Message.Record.{rr_cmp, rr_copy, size_of_ret}

-- `struct rr_cache_linked_node`, with the seconds of `expire_time`. The element of the dummy is NULL.
pub record Node : Type 0 where
  pub next : Option ℕ
  pub last : Option ℕ
  pub element : Option ResourceRecord
  pub expire_time : ℕ

abbrev pub Heap : Type 0
Heap = ℕ → Option Node

-- `struct rr_cache`
pub record Cache : Type 0 where
  pub heap : Heap
  pub unused : ℕ
  pub dummy : ℕ
  pub size : ℕ

abbrev pub store : Heap → ℕ → Node → Heap
store h p n q = if q == p then some n else h q

-- `p->next = next` and `p->last = last`
unfoldable pub set_next : Heap → ℕ → Option ℕ → Option Heap
set_next h p next = h p >>= λ n. some (store h p (record n { next = next }))

unfoldable pub set_last : Heap → ℕ → Option ℕ → Option Heap
set_last h p last = h p >>= λ n. some (store h p (record n { last = last }))

-- `if (next) { next->last = last; }`
unfoldable pub set_last_if : Heap → Option ℕ → Option ℕ → Option Heap
set_last_if h none last = some h
set_last_if h (some p) last = set_last h p last

-- `create_cache_node`; `rr` is NULL for the dummy.
unfoldable pub create_cache_node : ℕ → Option ℕ → Option ℕ → Option ResourceRecord → Option Node
create_cache_node now next last none =
    some (record { next = next; last = last; element = none; expire_time = now })
create_cache_node now next last (some rr) = do
  (_, copy) ← rr_copy rr
  some (record { next = next; last = last; element = some copy; expire_time = now + rr.ttl })

-- The test of `cache_find_rr` on an element.
unfoldable pub is_asked : List ℕ → ℕ → ℕ → ResourceRecord → Option Bool
is_asked domain type class rr =
    let same_name = domain_len rr.name >>= λ len. strncmp_eq (size_of_ret len) domain rr.name in
    if type == rr.type then (if class == rr.class then same_name else some false) else some false

-- The loop of `cache_find_rr` from a node on: the records stored in `dest`, whose number is the
-- result.
unfoldable pub find_loop : ℕ → Heap → Option ℕ → List ℕ → ℕ → ℕ → Option (List ResourceRecord)
find_loop zero h start domain type class = none
find_loop (suc fuel) h none domain type class = some []
find_loop (suc fuel) h (some p) domain type class = do
  n ← h p
  rr ← n.element
  asked ← is_asked domain type class rr
  rest ← find_loop fuel h n.next domain type class
  if asked then (rr_copy rr >>= λ (_, copy). some (copy ∷ rest)) else some rest

unfoldable pub cache_find_rr : ℕ → Cache → List ℕ → ℕ → ℕ → Option (List ResourceRecord)
cache_find_rr fuel c domain type class = do
  d ← c.heap c.dummy
  find_loop fuel c.heap d.next domain type class

-- The loop of `cache_match_ln`: the node that matches, or NULL.
unfoldable pub match_loop : ℕ → Heap → Option ℕ → ResourceRecord → Option (Option ℕ)
match_loop zero h start rr = none
match_loop (suc fuel) h none rr = some none
match_loop (suc fuel) h (some p) rr = do
  n ← h p
  e ← n.element
  same ← rr_cmp e rr
  let rest = match_loop fuel h n.next rr
  if same then some (some p) else rest

unfoldable pub cache_match_ln : ℕ → Cache → ResourceRecord → Option (Option ℕ)
cache_match_ln fuel c rr = do d ← c.heap c.dummy; match_loop fuel c.heap d.next rr

-- The first two statements of `cache_put_rr` for an old node: its neighbours are joined.
unfoldable pub unlink : Heap → ℕ → Option Heap
unlink h old = do
  n ← h old
  last ← n.last
  h1 ← set_next h last n.next
  set_last_if h1 n.next n.last

-- The last two statements of either case: the dummy points to the node, and so does its successor.
unfoldable pub push_front : Heap → ℕ → ℕ → Option Heap
push_front h dummy p = do h1 ← set_next h dummy (some p); n ← h1 p; set_last_if h1 n.next (some p)

-- The case of an old node, and the case of a new one.
unfoldable pub put_old : Cache → ℕ → Option Cache
put_old c old = do
  h1 ← unlink c.heap old
  h2 ← set_last h1 old (some c.dummy)
  d ← h2 c.dummy
  h3 ← set_next h2 old d.next
  h4 ← push_front h3 c.dummy old
  some (record c { heap = h4 })

unfoldable pub put_new : ℕ → Cache → ResourceRecord → Option Cache
put_new now c rr = do
  d ← c.heap c.dummy
  n ← create_cache_node now d.next (some c.dummy) (some rr)
  h1 ← push_front (store c.heap c.unused n) c.dummy c.unused
  some (record c { heap = h1; unused = c.unused + 1; size = (c.size + 1) % 2 ^ 32 })

-- `cache_put_rr`, whose result is always 1.
unfoldable pub cache_put_rr : ℕ → ℕ → Cache → ResourceRecord → Option Cache
cache_put_rr fuel now c rr =
    cache_match_ln fuel c rr >>= elim [ none ↦ put_new now c rr | some old ↦ put_old c old ]

abbrev pub cache_size_max : ℕ
cache_size_max = 256

abbrev pub free_node : Heap → ℕ → Heap
free_node h p q = if q == p then none else h q

-- `cache.size--`
abbrev pub dec_size : ℕ → ℕ
dec_size size = (size + (2 ^ 32 - 1)) % 2 ^ 32

-- `if (last) { last->next = NULL; }`
unfoldable pub cut_after : Heap → Option ℕ → Option Heap
cut_after h none = some h
cut_after h (some last) = set_next h last none

-- The inner loop of `refresh_cache`, from a node on: the heap and the size afterwards.
unfoldable pub drop_loop : ℕ → Heap → Option ℕ → ℕ → Option (Heap × ℕ)
drop_loop zero h start size = none
drop_loop (suc fuel) h none size = some (h, size)
drop_loop (suc fuel) h (some p) size = do
  n ← h p
  h1 ← cut_after h n.last
  h2 ← set_last_if h1 n.next n.last
  drop_loop fuel (free_node h2 p) n.next (dec_size size)

-- The outer loop: one pass at the time `now`, from a node on, after `cnt` nodes that stay. The new
-- time to live is stored in 32 bits.
unfoldable pub refresh_loop : ℕ → ℕ → Heap → Option ℕ → ℕ → ℕ → Option (Heap × ℕ)
refresh_loop zero now h start cnt size = none
refresh_loop (suc fuel) now h none cnt size = some (h, size)
refresh_loop (suc fuel) now h (some p) cnt size = do
  n ← h p
  elim (leb n.expire_time now) [
    | true ↦ do h1 ← unlink h p; refresh_loop fuel now (free_node h1 p) n.next cnt (dec_size size)
    | false ↦ do
      rr ← n.element
      let h1 =
          store h p
            (record n { element = some (record rr { ttl = (n.expire_time - now) % 2 ^ 32 }) })
      elim (cnt + 1 == cache_size_max) [
        | true ↦ drop_loop fuel h1 n.next size
        | false ↦ refresh_loop fuel now h1 n.next (cnt + 1) size
      ]
  ]

-- One round of the timer thread in `refresh_cache`.
unfoldable pub refresh_cache : ℕ → ℕ → Cache → Option Cache
refresh_cache fuel now c = do
  d ← c.heap c.dummy
  (h, size) ← refresh_loop fuel now c.heap d.next 0 c.size
  some (record c { heap = h; size = size })

-- `init_cache` on a heap without nodes; the timer thread is left out.
unfoldable pub init_cache : ℕ → Cache
init_cache now = record {
  heap =
      store (λ _. none) 0 (record { next = none; last = none; element = none; expire_time = now });
  unused = 1;
  dummy = 0;
  size = 0;
}
