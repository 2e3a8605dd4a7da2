-- ===== src/Tests/Cache.antt =====
-- The cache of src/storage/cache.c: a record is put into an empty cache, found, and put again.
use baka_dns.Base.{ℕ, ◌+◌, ◌≡◌, refl, true, false, some, List, [], ◌∷◌, ◌++◌, ◌>>=◌, arith}
use baka_dns.Message.{ResourceRecord}
use baka_dns.Message.Name.{domain_len, strnlen, strncmp_eq}
use baka_dns.Message.Record.{rr_cmp}
use baka_dns.Trees.Search.{IsStored}
use baka_dns.Cache.{Cache, is_asked, cache_find_rr, cache_put_rr, init_cache, refresh_cache}
use baka_dns.Cache.Segment.{Entry}
use baka_dns.Cache.Walk.{IsCache}
use baka_dns.Cache.Found.{matching, cache_find_rr-matching}
use mathlib.Core.List.{map}
use baka_dns.Base.{take}
use baka_dns.Cache.Refresh.{refresh_cache-IsCache}
use baka_dns.Cache.Refresh.Kept.{renewed, alive}
use baka_dns.Cache.History.{CacheOp, find, put, refresh, calls, puts, Sound, calls-Sound}
use baka_dns.Cache.Put.{
  new_entry, init_cache-IsCache, cache_put_rr_new, cache_put_rr_old, cache_find_rr-cache_put_rr,
}

abbrev address : ResourceRecord
address = record {
  name = 1 ∷ 99 ∷ 0 ∷ [];
  type = 1;
  class = 1;
  ttl = 60;
  rdlength = 4;
  rdata = some (10 ∷ 0 ∷ 0 ∷ 1 ∷ []);
}

address-IsStored : IsStored address
address-IsStored = (
  record { labels = 1 ∷ 99 ∷ []; terminated = refl; plain = omega arith; short = omega arith },
  (refl, omega arith),
)

-- The cache with the record.
put_first :
    (c' : Cache) × (cache_put_rr 2 1000 (init_cache 900) address ≡ some c')
    × IsCache c' (new_entry 1000 (init_cache 900) address ∷ [])
put_first =
    cache_put_rr_new 2 1000 (init_cache 900) [] address (init_cache-IsCache 900) (omega arith)
      address-IsStored tt

abbrev filled : Cache
filled = put_first.0

abbrev entry : Entry
entry = new_entry 1000 (init_cache 900) address

rr_cmp_self : rr_cmp entry.rr address ≡ some true
unfolding rr_cmp domain_len strnlen strncmp_eq
rr_cmp_self = refl

cache_put_rr_old_example :
    (c' : Cache) × (cache_put_rr 1 1030 filled address ≡ some c') × IsCache c' (entry ∷ ([] ++ []))
cache_put_rr_old_example =
    cache_put_rr_old 1 1030 filled [] [] entry address put_first.2 (omega arith) tt rr_cmp_self

cache_find_rr-matching_example :
    cache_find_rr 2 filled (1 ∷ 99 ∷ 0 ∷ []) 1 1
    ≡ some (matching (entry ∷ []) (1 ∷ 99 ∷ 0 ∷ []) 1 1)
cache_find_rr-matching_example =
    cache_find_rr-matching 2 filled (entry ∷ []) (1 ∷ 99 ∷ 0 ∷ []) 1 1 put_first.2
      (address-IsStored, tt) address-IsStored.0 (omega arith)

matched : matching (entry ∷ []) (1 ∷ 99 ∷ 0 ∷ []) 1 1 ≡ address ∷ []
unfolding matching
matched = refl

cache_find_rr-cache_put_rr_example :
    (c' : Cache) × (cache_put_rr 2 1000 (init_cache 900) address ≡ some c')
    × (cache_find_rr 2 c' address.name address.type address.class ≡ (
        cache_find_rr 2 (init_cache 900) address.name address.type address.class >>= λ olds.
        some (address ∷ olds)))
    × ((domain : List ℕ) (type class : ℕ)
        → is_asked domain type class address ≡ some false
        → cache_find_rr 2 c' domain type class ≡ cache_find_rr 2 (init_cache 900) domain type class)
cache_find_rr-cache_put_rr_example =
    cache_find_rr-cache_put_rr 2 1000 (init_cache 900) [] address (init_cache-IsCache 900)
      (omega arith) address-IsStored tt

refresh_cache-IsCache_example :
    (c' : Cache) × (refresh_cache 2 1059 filled ≡ some c')
    × IsCache c' (take 256 (map (renewed 1059) (alive 1059 (entry ∷ []))))
refresh_cache-IsCache_example =
    refresh_cache-IsCache 2 1059 filled (entry ∷ []) put_first.2 (omega arith)

-- One second before it expires the record is kept, with that second to live; then it is dropped.
kept :
    map (renewed 1059) (alive 1059 (entry ∷ []))
    ≡ (record entry { rr = record address { ttl = 1 } }) ∷ []
unfolding alive
kept = refl

dropped : map (renewed 1060) (alive 1060 (entry ∷ [])) ≡ []
unfolding alive
dropped = refl

none_yet : Sound 0 (init_cache 900)
none_yet = record { entries = []; valid = init_cache-IsCache 900; hold = tt; few = omega arith }

abbrev history : List CacheOp
history = put 1000 address ∷ find address.name 1 1 ∷ refresh 1030 ∷ put 1040 address ∷ []

calls-Sound_example :
    (c' : Cache) × (calls 3 history (init_cache 900) ≡ some c') × Sound (0 + puts history) c'
calls-Sound_example =
    calls-Sound 3 0 history (init_cache 900) none_yet
      (address-IsStored, (address-IsStored.0, (tt, (address-IsStored, tt)))) (omega arith)
