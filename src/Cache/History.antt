-- ===== src/Cache/History.antt =====
-- Any sequence of the calls of src/storage/cache.c. The mutex makes each call one step, so the sequences
-- are the ways in which the threads and the timer can take turns.
use mathlib.Core.List.{map}
use baka_dns.Base.{
  ℕ, zero, suc, ◌+◌, ◌≤◌, ◌<◌, ◌≡◌, refl, Option, none, some, List, [], ◌∷◌, inl, inr, All, arith,
  length, length-map, length-take, leb, Bool-cases, take, ◌>>=◌,
}
use baka_dns.Message.{ResourceRecord}
use baka_dns.Message.Wire.{IsName}
use baka_dns.Trees.Search.{IsStored}
use baka_dns.Cache.{Cache, cache_find_rr, cache_put_rr, refresh_cache}
use baka_dns.Cache.Segment.{Entry}
use baka_dns.Cache.Walk.{IsCache, cache_find_rr-find_list}
use baka_dns.Cache.Total.{AllHold, cache_put_rr-AfterPut}
use baka_dns.Cache.Found.{find_list-Contains}
use baka_dns.Cache.Refresh.{refresh_cache-IsCache}
use baka_dns.Cache.Refresh.Kept.{alive, renewed}

-- A call, with the time for the two that read the clock.
pub data CacheOp : Type 0 where
  find : List ℕ → ℕ → ℕ → CacheOp
  put : ℕ → ResourceRecord → CacheOp
  refresh : ℕ → CacheOp

-- The cache after a call.
unfoldable pub call : ℕ → CacheOp → Cache → Option Cache
call fuel (find domain type class) c = cache_find_rr fuel c domain type class >>= λ _. some c
call fuel (put now rr) c = cache_put_rr fuel now c rr
call fuel (refresh now) c = refresh_cache fuel now c

unfoldable pub calls : ℕ → List CacheOp → Cache → Option Cache
calls fuel [] c = some c
calls fuel (op ∷ ops) c = do c1 ← call fuel op c; calls fuel ops c1

-- A lookup for a valid name, or a record with a valid name and as much data as it says.
abbrev pub IsCall : CacheOp → Type 0
IsCall (find domain type class) = IsName domain
IsCall (put now rr) = IsStored rr
IsCall (refresh now) = Unit

-- The number of records that the calls can add.
abbrev pub puts : List CacheOp → ℕ
puts [] = 0
puts (put now rr ∷ ops) = suc (puts ops)
puts (find domain type class ∷ ops) = puts ops
puts (refresh now ∷ ops) = puts ops

-- A valid cache with at most `n` records that can be stored.
pub record Sound (n : ℕ) (c : Cache) : Type 0 where
  pub entries : List Entry
  pub valid : IsCache c entries
  pub hold : AllHold IsStored entries
  pub few : length entries ≤ n

more : {n m : ℕ} (c : Cache) → Sound n c → n ≤ m → Sound m c
more c s le = record {
  entries = s.entries;
  valid = s.valid;
  hold = s.hold;
  few = omega (arith, s.few);
}

alive_few : (now : ℕ) (es : List Entry) → length (alive now es) ≤ length es
unfolding alive
alive_few now [] = omega arith
alive_few now (e ∷ es) = ground (arith, alive_few now es)

alive_hold :
    (now : ℕ) (es : List Entry)
    → AllHold IsStored es
    → AllHold IsStored (map (renewed now) (alive now es))
unfolding alive
alive_hold now [] h = tt
alive_hold now (e ∷ es) h = elim (Bool-cases (leb e.expire_time now)) [
  | inl t ↦ rw t (alive_hold now es h.1)
  | inr f ↦ rw f (h.0, alive_hold now es h.1)
]

take_hold : (n : ℕ) (es : List Entry) → AllHold IsStored es → AllHold IsStored (take n es)
take_hold zero es h = tt
take_hold (suc n) [] h = tt
take_hold (suc n) (e ∷ es) h = (h.0, take_hold n es h.1)

-- The record that stands for what is asked.
asking : List ℕ → ℕ → ℕ → ResourceRecord
asking domain type class = record {
  name = domain;
  type = type;
  class = class;
  ttl = 0;
  rdlength = 0;
  rdata = none;
}

find-Sound :
    (fuel n : ℕ) (c : Cache) (domain : List ℕ) (type class : ℕ)
    → Sound n c
    → n < fuel
    → IsName domain
    → call fuel (find domain type class) c ≡ some c
unfolding call asking
find-Sound fuel n c domain type class s lt name =
    let (found, e, few, has) =
      find_list-Contains s.entries (asking domain type class) s.hold (name, refl) in
    rw
      (
        cache_find_rr-find_list fuel c s.entries domain type class s.valid (omega (arith, s.few)),
        e,
        ◌>>=◌,
      )
      refl

call-Sound :
    (fuel n : ℕ) (op : CacheOp) (c : Cache)
    → Sound n c
    → IsCall op
    → n < fuel
    → (c' : Cache) × (call fuel op c ≡ some c') × Sound (n + puts (op ∷ [])) c'
unfolding call
call-Sound fuel n (find domain type class) c s name lt =
    (c, find-Sound fuel n c domain type class s lt name, more c s (omega arith))
call-Sound fuel n (put now rr) c s k lt =
    let (c', done, a) =
      cache_put_rr-AfterPut IsStored (λ x h. h) fuel now c s.entries rr s.valid s.hold k
        (omega (arith, s.few)) in
    (
      c',
      done,
      record {
        entries = a.entries;
        valid = a.valid;
        hold = a.hold;
        few = omega (arith, a.few, s.few);
      },
    )
call-Sound fuel n (refresh now) c s k lt =
    let (c', done, v) = refresh_cache-IsCache fuel now c s.entries s.valid (omega (arith, s.few)) in
    let left = map (renewed now) (alive now s.entries) in
    (
      c',
      done,
      record {
        entries = take 256 left;
        valid = v;
        hold = take_hold 256 left (alive_hold now s.entries s.hold);
        few = omega (
          arith,
          length-take 256 left,
          length-map (alive now s.entries) (renewed now),
          alive_few now s.entries,
          s.few,
        );
      },
    )

-- From a valid cache with `n` records at most, any sequence of lookups, insertions and passes of the
-- timer runs without a fault, with a round of fuel for each record that the cache can come to hold and
-- one more, and leaves a valid cache whose records are complete. There are no more of them than the
-- cache had and the sequence put in.
pub calls-Sound :
    (fuel n : ℕ) (ops : List CacheOp) (c : Cache)
    → Sound n c
    → All IsCall ops
    → n + puts ops < fuel
    → (c' : Cache) × (calls fuel ops c ≡ some c') × Sound (n + puts ops) c'
unfolding calls
calls-Sound fuel n [] c s h lt = (c, refl, more c s (omega arith))
calls-Sound fuel n (op ∷ ops) c s h lt =
    let (c1, one, s1) = call-Sound fuel n op c s h.0 (omega arith) in
    let e = puts_cons op ops in
    let (c2, all, s2) = calls-Sound fuel (n + puts (op ∷ [])) ops c1 s1 h.1 (omega (arith, e)) in
    (c2, rw (one, ◌>>=◌) all, more c2 s2 (omega (arith, e)))
  where
    puts_cons : (op : CacheOp) (ops : List CacheOp) → puts (op ∷ ops) ≡ puts (op ∷ []) + puts ops
    puts_cons (find domain type class) ops = omega arith
    puts_cons (put now rr) ops = omega arith
    puts_cons (refresh now) ops = omega arith
