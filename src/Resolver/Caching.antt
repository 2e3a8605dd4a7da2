-- ===== src/Resolver/Caching.antt =====
-- The calls of the cache in src/socket/resolv.c.
use baka_dns.Base.{
  ℕ, ◌+◌, ◌≤◌, ◌<◌, ◌≡◌, refl, sym, ap, ◌∙◌, subst, Bool, true, false, Option, none, some, List, [],
  ◌∷◌, ◌++◌, All, inl, inr, arith, length, drop, ◌>>=◌, >>=-eq-some, if◌then◌else◌,
}
use baka_dns.Message.{ResourceRecord, IntRet}
use baka_dns.Message.Record.{rr_cmp, rr_copy}
use baka_dns.Trees.Search.{IsStored, rr_copy_self}
use baka_dns.Cache.{cache_find_rr, Cache, is_asked}
use baka_dns.Cache.Segment.{Entry}
use baka_dns.Cache.Walk.{IsCache, find_list, cache_find_rr-find_list}
use baka_dns.Cache.Found.{find_list-Contains}
use baka_dns.Cache.Total.{rr_cmp_self, Any, Contains, AllHold, cache_put_rr-AfterPut}
use baka_dns.Resolver.{fill, put_all}

-- `fill` stores the records in front, if there is room.
pub fill-append :
    (buf rrs : List ResourceRecord)
    → length rrs ≤ length buf
    → fill buf rrs ≡ some (rrs ++ drop (length rrs) buf)
unfolding fill
fill-append buf [] h = refl
fill-append [] (rr ∷ rrs) h = absurd (omega arith)
fill-append (old ∷ buf) (rr ∷ rrs) h = rw (fill-append buf rrs (omega arith), ◌>>=◌)

some_injective : {A : Type 0} {x y : A} → some x ≡ some y → x ≡ y
some_injective {x = x} e = ap (λ o. elim o [ none ↦ x | some z ↦ z ]) e

-- What is found has the properties of what is cached.
pub find_list-All :
    (P : ResourceRecord → Type 0) (stores : (rr : ResourceRecord) → P rr → IsStored rr)
    (es : List Entry) (domain : List ℕ) (type class : ℕ) (rrs : List ResourceRecord)
    → AllHold P es
    → find_list es domain type class ≡ some rrs
    → All P rrs
unfolding find_list
find_list-All P stores [] domain type class [] h e = tt
find_list-All P stores [] domain type class (rr ∷ rrs) h e = absurd (ground arith)
find_list-All P stores (x ∷ es) domain type class rrs h e =
    let (asked, a, e1) = >>=-eq-some (is_asked domain type class x.rr) _ e in
    let (rest, b, e2) = >>=-eq-some (find_list es domain type class) _ e1 in
    go asked rest (find_list-All P stores es domain type class rest h.1 b) e2
  where
    go :
        (asked : Bool) (rest : List ResourceRecord)
        → All P rest
        → (if asked then (rr_copy x.rr >>= λ (_, copy). some (copy ∷ rest)) else some rest)
          ≡ some rrs
        → All P rrs
    go true rest k e2 =
        subst (All P)
          (some_injective (
            sym (
              ap (λ (m : Option (IntRet × ResourceRecord)). m >>= λ (_, copy). some (copy ∷ rest))
                (rr_copy_self x.rr (stores x.rr h.0)))
            ∙ e2))
          (h.0, k)
    go false rest k e2 = subst (All P) (some_injective e2) k

-- What some calls of `cache_put_rr` make of the entries `es`.
pub record AfterAll (P : ResourceRecord → Type 0) (c' : Cache) (es : List Entry)
    (rrs : List ResourceRecord) : Type 0 where
  pub entries : List Entry
  pub valid : IsCache c' entries
  pub hold : AllHold P entries
  pub few : length entries ≤ length es + length rrs
  pub has : All (Contains entries) rrs
  pub kept : (old : ResourceRecord) → Contains es old → Contains entries old

pub put_all-AfterAll :
    (P : ResourceRecord → Type 0) (stores : (rr : ResourceRecord) → P rr → IsStored rr)
    (fuel now : ℕ) (c : Cache) (es : List Entry) (rrs : List ResourceRecord)
    → IsCache c es
    → AllHold P es
    → All P rrs
    → length es + length rrs ≤ fuel
    → (c' : Cache) × (put_all fuel now c rrs ≡ some c') × AfterAll P c' es rrs
unfolding put_all
put_all-AfterAll P stores fuel now c es [] v h k le = (
  c,
  refl,
  record {
    entries = es;
    valid = v;
    hold = h;
    few = omega arith;
    has = tt;
    kept = λ old there. there;
  },
)
put_all-AfterAll P stores fuel now c es (rr ∷ rrs) v h k le =
    let (c1, done, a) = cache_put_rr-AfterPut P stores fuel now c es rr v h k.0 (omega arith) in
    let (c2, all, b) =
      put_all-AfterAll P stores fuel now c1 a.entries rrs a.valid a.hold k.1
        (omega (arith, a.few)) in
    (
      c2,
      rw (done, ◌>>=◌) all,
      record {
        entries = b.entries;
        valid = b.valid;
        hold = b.hold;
        few = omega (arith, a.few, b.few);
        has = (b.kept rr a.has, b.has);
        kept = λ old there. b.kept old (a.kept old there);
      },
    )

-- A lookup for the name, type and class of the record gives it, up to `rr_cmp`.
abbrev pub IsFound : ℕ → Cache → ResourceRecord → Type 0
IsFound fuel c rr =
    (found : List ResourceRecord) × (cache_find_rr fuel c rr.name rr.type rr.class ≡ some found)
    × Any (λ x. rr_cmp x rr ≡ some true) found

-- After `cache_put_rr` of each of some records, a lookup for the name, type and class of any of them, or
-- of any record that the cache had before, gives a record that equals it under `rr_cmp`. The
-- records have valid names and as much data as they say, and there is a round of fuel for each.
pub cache_find_rr-put_all :
    (fuel now : ℕ) (c : Cache) (es : List Entry) (rrs : List ResourceRecord)
    → IsCache c es
    → AllHold IsStored es
    → All IsStored rrs
    → length es + length rrs < fuel
    → (c' : Cache) × (put_all fuel now c rrs ≡ some c')
      × All (IsFound fuel c') rrs
      × AllHold (IsFound fuel c') es
cache_find_rr-put_all fuel now c es rrs v h k lt =
    let (c', done, a) =
      put_all-AfterAll IsStored (λ rr s. s) fuel now c es rrs v h k (omega arith) in
    (c', done, all c' a rrs k a.has, olds c' a es h (λ rr there. there))
  where
    find :
        (c' : Cache) (a : AfterAll IsStored c' es rrs) (rr : ResourceRecord)
        → IsStored rr
        → Contains a.entries rr
        → IsFound fuel c' rr
    find c' a rr s there =
        let (found, e, few, has) = find_list-Contains a.entries rr a.hold s in
        (
          found,
          cache_find_rr-find_list fuel c' a.entries rr.name rr.type rr.class a.valid
                (omega (arith, a.few))
              ∙ e,
          has there,
        )

    all :
        (c' : Cache) (a : AfterAll IsStored c' es rrs) (news : List ResourceRecord)
        → All IsStored news
        → All (Contains a.entries) news
        → All (IsFound fuel c') news
    all c' a [] s there = tt
    all c' a (rr ∷ news) s there = (find c' a rr s.0 there.0, all c' a news s.1 there.1)

    olds :
        (c' : Cache) (a : AfterAll IsStored c' es rrs) (xs : List Entry)
        → AllHold IsStored xs
        → ((rr : ResourceRecord) → Contains xs rr → Contains es rr)
        → AllHold (IsFound fuel c') xs
    olds c' a [] s within = tt
    olds c' a (x ∷ xs) s within = (
      find c' a x.rr s.0 (a.kept x.rr (within x.rr (inl (rr_cmp_self x.rr s.0)))),
      olds c' a xs s.1 (λ rr there. within rr (inr there)),
    )
