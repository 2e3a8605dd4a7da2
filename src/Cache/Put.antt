-- ===== src/Cache/Put.antt =====
-- `cache_put_rr` of src/storage/cache.c on the list of the entries.
use baka_dns.Base.{
  ℕ, suc, ◌+◌, ◌%◌, ◌^◌, ◌<◌, ◌≡◌, ◌≢◌, refl, sym, ap, ◌∙◌, true, false, Option, none, some, List,
  [], ◌∷◌, ◌++◌, ◌>>=◌, All, All-append, ==_refl, arith, length, length-append,
}
use baka_dns.Message.{ResourceRecord}
use baka_dns.Message.Record.{rr_cmp}
use baka_dns.Trees.Search.{IsStored, rr_copy_self}
use baka_dns.Cache.{
  Node, Cache, store, set_next, set_last, create_cache_node, put_old, put_new, cache_put_rr,
  is_asked, cache_find_rr, init_cache,
}
use baka_dns.Cache.Segment.{
  Entry, head_of, node_of, Segment, Apart, store_self, store_other, Segment-store, All-split,
  Distinct-without, Apart-without, unlink-Segment, push_front-Segment, Segment-at,
}
use baka_dns.Message.Record.Compare.{names}
use baka_dns.Message.Wire.Write.{domain_len-IsName}
use baka_dns.Cache.Walk.{
  IsCache, find_list, cache_find_rr-find_list, cache_match_ln-none, cache_match_ln-some,
}

fresh-Apart : (n : ℕ) (es : List Entry) → All (λ e. e.address < n) es → Apart n es
fresh-Apart n [] b = tt
fresh-Apart n (e ∷ es) b = ((λ t. omega (arith, b.0)), fresh-Apart n es b.1)

below_suc :
    (n : ℕ) (es : List Entry) → All (λ e. e.address < n) es → All (λ e. e.address < n + 1) es
below_suc n [] b = tt
below_suc n (e ∷ es) b = (omega (arith, b.0), below_suc n es b.1)

-- The entry of a record that is put into the cache.
abbrev pub new_entry : ℕ → Cache → ResourceRecord → Entry
new_entry now c rr = record { address = c.unused; rr = rr; expire_time = now + rr.ttl }

put_new-IsCache :
    (now : ℕ) (c : Cache) (es : List Entry) (rr : ResourceRecord)
    → IsCache c es
    → IsStored rr
    → (c' : Cache) × (put_new now c rr ≡ some c') × IsCache c' (new_entry now c rr ∷ es)
unfolding put_new create_cache_node
put_new-IsCache now c es rr v h =
    let e = new_entry now c rr in
    let n = node_of (head_of es) c.dummy e in
    let apart = fresh-Apart c.unused es v.below in
    let ne : c.dummy ≢ c.unused = λ t. omega (arith, v.dummy_below) in
    let h0 = store c.heap c.unused n in
    let (h', done, at, seg) =
      push_front-Segment es e h0 c.dummy v.dummy_node
        (store_other c.heap c.unused n c.dummy ne ∙ v.dummy_at) (store_self c.heap c.unused n)
        (Segment-store c.heap c.dummy c.unused n es v.segment apart) (ne, v.apart)
        (apart, v.distinct) in
    (
      record { heap = h'; unused = c.unused + 1; dummy = c.dummy; size = (c.size + 1) % 2 ^ 32 },
      rw (v.dummy_at, ◌>>=◌) (rw (rr_copy_self rr h, ◌>>=◌) (rw (v.linked, done, ◌>>=◌) refl)),
      record {
        dummy_node = record v.dummy_node { next = some c.unused };
        dummy_at = at;
        linked = refl;
        segment = seg;
        apart = (ne, v.apart);
        distinct = (apart, v.distinct);
        below = (omega arith, below_suc c.unused es v.below);
        dummy_below = omega (arith, v.dummy_below);
        sized = omega (arith, v.sized);
      },
    )

-- The cache after `init_cache` has no entries.
pub init_cache-IsCache : (now : ℕ) → IsCache (init_cache now) []
unfolding init_cache Segment
init_cache-IsCache now = record {
  dummy_node = record { next = none; last = none; element = none; expire_time = now };
  dummy_at = refl;
  linked = refl;
  segment = tt;
  apart = tt;
  distinct = tt;
  below = tt;
  dummy_below = omega arith;
  sized = refl;
}

put_old-IsCache :
    (c : Cache) (pre post : List Entry) (e : Entry)
    → IsCache c (pre ++ (e ∷ post))
    → (c' : Cache) × (put_old c e.address ≡ some c') × IsCache c' (e ∷ (pre ++ post))
unfolding put_old set_last set_next
put_old-IsCache c pre post e v =
    let rest = pre ++ post in
    let (q, at_old) = Segment-at pre post e c.heap c.dummy v.segment in
    let (few, apart) = Distinct-without pre post e v.distinct in
    let (_, there) = All-split (λ y. c.dummy ≢ y.address) pre (e ∷ post) v.apart in
    let ne : c.dummy ≢ e.address = there.0 in
    let d_apart = Apart-without c.dummy pre post e v.apart in
    let (h1, done1, at1, seg1, frame1) =
      unlink-Segment pre post e c.heap c.dummy v.dummy_node v.dummy_at v.linked v.segment v.apart
        v.distinct in
    let old1 : h1 e.address ≡ some (node_of (head_of post) q e) =
      frame1 e.address ne apart ∙ at_old in
    let n2 = node_of (head_of post) c.dummy e in
    let h2 = store h1 e.address n2 in
    let dn : Node = record v.dummy_node { next = head_of rest } in
    let at2 : h2 c.dummy ≡ some dn = store_other h1 e.address n2 c.dummy ne ∙ at1 in
    let n3 = node_of (head_of rest) c.dummy e in
    let h3 = store h2 e.address n3 in
    let (h4, done4, at4, seg4) =
      push_front-Segment rest e h3 c.dummy dn (store_other h2 e.address n3 c.dummy ne ∙ at2)
        (store_self h2 e.address n3)
        (Segment-store h2 c.dummy e.address n3 rest
          (Segment-store h1 c.dummy e.address n2 rest seg1 apart) apart)
        (ne, d_apart) (apart, few) in
    let (b1, b2) = All-split (λ x. x.address < c.unused) pre (e ∷ post) v.below in
    (
      record c { heap = h4 },
      rw (done1, ◌>>=◌)
          (rw (old1, ◌>>=◌)
            (rw (at2, ◌>>=◌) (rw (store_self h1 e.address n2, ◌>>=◌) (rw (done4, ◌>>=◌) refl)))),
      record {
        dummy_node = record dn { next = some e.address };
        dummy_at = at4;
        linked = refl;
        segment = seg4;
        apart = (ne, d_apart);
        distinct = (apart, few);
        below = (b2.0, All-append (λ x. x.address < c.unused) pre post b1 b2.1);
        dummy_below = v.dummy_below;
        sized =
            v.sized
            ∙ ap (λ (k : ℕ). k % 2 ^ 32)
                (omega (arith, length-append pre (e ∷ post), length-append pre post));
      },
    )

-- `cache_put_rr` of a record that equals none of the cached ones under `rr_cmp`: the cache then holds
-- it in front of the old entries, with the time `now` plus its time to live at which it expires.
pub cache_put_rr_new :
    (fuel now : ℕ) (c : Cache) (es : List Entry) (rr : ResourceRecord)
    → IsCache c es
    → length es < fuel
    → IsStored rr
    → All (λ e. rr_cmp e.rr rr ≡ some false) es
    → (c' : Cache) × (cache_put_rr fuel now c rr ≡ some c') × IsCache c' (new_entry now c rr ∷ es)
unfolding cache_put_rr
cache_put_rr_new fuel now c es rr v lt h f =
    rw (cache_match_ln-none fuel c es rr v lt f, ◌>>=◌) (put_new-IsCache now c es rr v h)

-- `cache_put_rr` of a record that equals a cached one under `rr_cmp`: the first such entry moves to the
-- front, with the record and the time it had, and the others keep their order.
pub cache_put_rr_old :
    (fuel now : ℕ) (c : Cache) (pre post : List Entry) (e : Entry) (rr : ResourceRecord)
    → IsCache c (pre ++ (e ∷ post))
    → length pre < fuel
    → All (λ x. rr_cmp x.rr rr ≡ some false) pre
    → rr_cmp e.rr rr ≡ some true
    → (c' : Cache) × (cache_put_rr fuel now c rr ≡ some c') × IsCache c' (e ∷ (pre ++ post))
unfolding cache_put_rr
cache_put_rr_old fuel now c pre post e rr v lt f t =
    rw (cache_match_ln-some fuel c pre post e rr v lt f t, ◌>>=◌) (put_old-IsCache c pre post e v)

>>=_some : (m : Option (List ResourceRecord)) → (m >>= λ r. some r) ≡ m
>>=_some none = refl
>>=_some (some r) = refl

-- A valid name is what it is looked up by.
is_asked_self :
    (rr : ResourceRecord) → IsStored rr → is_asked rr.name rr.type rr.class rr ≡ some true
unfolding is_asked
is_asked_self rr h =
    let n = h.0 in
    let (same, e, k) =
      names rr.name rr.name n.labels n.labels n.terminated n.terminated n.plain n.plain in
    rw (==_refl rr.type, ==_refl rr.class, domain_len-IsName rr.name n, ◌>>=◌)
      (e ∙ ap some (k.1 refl))

-- A record that is put into the cache, and that equals none of the cached ones under `rr_cmp` (which
-- reads the data up to a zero byte), is the first that `cache_find_rr` finds for its name, type and
-- class; behind it stand those found before. For a name, type and class that it does not match, the
-- same are found as before.
pub cache_find_rr-cache_put_rr :
    (fuel now : ℕ) (c : Cache) (es : List Entry) (rr : ResourceRecord)
    → IsCache c es
    → suc (length es) < fuel
    → IsStored rr
    → All (λ e. rr_cmp e.rr rr ≡ some false) es
    → (c' : Cache) × (cache_put_rr fuel now c rr ≡ some c')
      × (cache_find_rr fuel c' rr.name rr.type rr.class
          ≡ (cache_find_rr fuel c rr.name rr.type rr.class >>= λ olds. some (rr ∷ olds)))
      × ((domain : List ℕ) (type class : ℕ)
          → is_asked domain type class rr ≡ some false
          → cache_find_rr fuel c' domain type class ≡ cache_find_rr fuel c domain type class)
unfolding find_list
cache_find_rr-cache_put_rr fuel now c es rr v lt h f =
    let (c', done, v') = cache_put_rr_new fuel now c es rr v (omega arith) h f in
    let all = new_entry now c rr ∷ es in
    (
      c',
      done,
      cache_find_rr-find_list fuel c' all rr.name rr.type rr.class v' (omega arith)
          ∙ rw (is_asked_self rr h, ◌>>=◌)
              (rw (rr_copy_self rr h, ◌>>=◌)
                (ap (λ (m : Option (List ResourceRecord)). m >>= λ olds. some (rr ∷ olds))
                  (sym
                    (cache_find_rr-find_list fuel c es rr.name rr.type rr.class v (omega arith))))),
      λ domain type class no.
          cache_find_rr-find_list fuel c' all domain type class v' (omega arith)
          ∙ rw (no, ◌>>=◌)
              (>>=_some (find_list es domain type class)
                ∙ sym (cache_find_rr-find_list fuel c es domain type class v (omega arith))),
    )
