-- ===== src/Cache/Refresh.antt =====
-- One pass of `refresh_cache` in src/storage/cache.c on the list of the entries.
pub mod Kept
use mathlib.Core.List.{map}
use baka_dns.Base.{
  ℕ, zero, suc, ◌+◌, ◌-◌, ◌%◌, ◌^◌, ◌<◌, ◌≡◌, ◌≢◌, refl, sym, ap, ◌∙◌, subst, true, false, Option,
  none, some, List, [], ◌∷◌, ◌>>=◌, ◌==◌, if◌then◌else◌, leb, All, arith, length, take, ==_ne,
  ==_iff, Bool-cases, inl, inr,
}
use baka_dns.Cache.{
  Node, Heap, Cache, store, set_next, free_node, dec_size, cut_after, drop_loop, refresh_loop,
  refresh_cache,
}
use baka_dns.Cache.Segment.{
  Entry, head_of, node_of, Segment, Apart, Distinct, store_self, store_other, Segment-store,
  set_last_if-Segment, unlink-Segment,
}
use baka_dns.Cache.Walk.{IsCache}
use baka_dns.Cache.Refresh.Kept.{
  alive, renewed, keep, keep_nil, keep_expired, keep_last, keep_more, keep-take, All-keep,
  Distinct-keep,
}

free_other : (h : Heap) (p q : ℕ) → q ≢ p → free_node h p q ≡ h q
free_other h p q f = rw (==_ne q p f)

Segment-free :
    (h : Heap) (p q : ℕ) (es : List Entry)
    → Segment h p es
    → Apart q es
    → Segment (free_node h q) p es
unfolding Segment
Segment-free h p q [] s f = tt
Segment-free h p q (e ∷ es) s f =
    (free_other h q e.address (λ t. f.0 (sym t)) ∙ s.0, Segment-free h e.address q es s.1 f.1)

-- The node before dropped ones.
abbrev after : Node → List Entry → Node
after pn [] = pn
after pn (e ∷ es) = record pn { next = none }

after_cut :
    (pn : Node) (es : List Entry) → after (record pn { next = none }) es ≡ record pn { next = none }
after_cut pn [] = refl
after_cut pn (e ∷ es) = refl

after_node :
    (e : Entry) (p : ℕ) (es : List Entry) → after (node_of (head_of es) p e) es ≡ node_of none p e
after_node e p [] = refl
after_node e p (x ∷ es) = refl

drop_loop-Segment :
    (es : List Entry) (fuel : ℕ) (h : Heap) (p : ℕ) (pn : Node) (rest size : ℕ)
    → h p ≡ some pn
    → Segment h p es
    → Apart p es
    → Distinct es
    → length es < fuel
    → size ≡ (rest + length es) % 2 ^ 32
    → (h' : Heap) × (drop_loop fuel h (head_of es) size ≡ some (h', rest % 2 ^ 32))
      × (h' p ≡ some (after pn es))
      × ((x : ℕ) → p ≢ x → Apart x es → h' x ≡ h x)
unfolding drop_loop Segment cut_after set_next
drop_loop-Segment es zero h p pn rest size at s f d lt e = absurd (omega arith)
drop_loop-Segment [] (suc fuel) h p pn rest size at s f d lt e =
    (h, ap (λ (k : ℕ). some (h, k)) (omega arith), at, λ x ne a. refl)
drop_loop-Segment (y ∷ es) (suc fuel) h p pn rest size at s f d lt e =
    let pn' : Node = record pn { next = none } in
    let h1 = store h p pn' in
    let (h2, done, seg, frame) =
      set_last_if-Segment h1 y.address p es (Segment-store h y.address p pn' es s.1 f.1) d.1 in
    let h3 = free_node h2 y.address in
    let at3 : h3 p ≡ some pn' = free_other h2 y.address p f.0 ∙ frame p f.1 ∙ store_self h p pn' in
    let (h', ran, here, left) =
      drop_loop-Segment es fuel h3 p pn' rest (dec_size size) at3
        (Segment-free h2 p y.address es seg d.0) f.1 d.1 (omega arith) (omega arith) in
    (
      h',
      rw (s.0, ◌>>=◌) (rw (at, ◌>>=◌) (rw (done, ◌>>=◌) ran)),
      here ∙ ap some (after_cut pn es),
      λ x ne a.
          left x ne a.1
          ∙ free_other h2 y.address x a.0
          ∙ frame x a.1
          ∙ store_other h p pn' x (λ t. ne (sym t)),
    )

-- A pass behind the node `p`.
refresh_loop-Segment :
    (es : List Entry) (fuel now cnt : ℕ) (h : Heap) (p : ℕ) (pn : Node) (rest size : ℕ)
    → h p ≡ some pn
    → pn.next ≡ head_of es
    → Segment h p es
    → Apart p es
    → Distinct es
    → length es < fuel
    → size ≡ (rest + length es) % 2 ^ 32
    → (h' : Heap) × (refresh_loop fuel now h (head_of es) cnt size
        ≡ some (h', (rest + length (keep now cnt es)) % 2 ^ 32))
      × (h' p ≡ some (record pn { next = head_of (keep now cnt es) }))
      × Segment h' p (keep now cnt es)
      × ((x : ℕ) → p ≢ x → Apart x es → h' x ≡ h x)
unfolding refresh_loop Segment
refresh_loop-Segment es zero now cnt h p pn rest size at next s f d lt e = absurd (omega arith)
refresh_loop-Segment [] (suc fuel) now cnt h p pn rest size at next s f d lt e =
    rw (keep_nil now cnt) (
      h,
      ap (λ (k : ℕ). some (h, k)) e,
      at ∙ ap (λ (t : Option ℕ). some (record pn { next = t })) next,
      tt,
      λ x ne a. refl,
    )
refresh_loop-Segment (y ∷ es) (suc fuel) now cnt h p pn rest size at next s f d lt e =
    elim (Bool-cases (leb y.expire_time now)) [
      | inl t ↦
          let (h1, done, at1, seg, frame) = unlink-Segment [] es y h p pn at next s f d in
          let (h', ran, here, left, same) =
            refresh_loop-Segment es fuel now cnt (free_node h1 y.address) p
              (record pn { next = head_of es }) rest (dec_size size)
              (free_other h1 y.address p f.0 ∙ at1) refl (Segment-free h1 p y.address es seg d.0)
              f.1 d.1 (omega arith) (omega arith) in
          (
            h',
            rw (s.0, ◌>>=◌) (rw (t, done, ◌>>=◌) (rw (keep_expired now cnt y es t) ran)),
            rw (keep_expired now cnt y es t) here,
            rw (keep_expired now cnt y es t) left,
            λ x ne a. same x ne a.1 ∙ free_other h1 y.address x a.0 ∙ frame x ne a.1,
          )
      | inr g ↦
          let yn = node_of (head_of es) p (renewed now y) in
          let h1 = store h y.address yn in
          let seg1 = Segment-store h y.address y.address yn es s.1 d.0 in
          elim (Bool-cases (cnt + 1 == 256)) [
            | inl u ↦
                let (h', ran, here, same) =
                  drop_loop-Segment es fuel h1 y.address yn (rest + 1) size
                    (store_self h y.address yn) seg1 d.0 d.1 (omega arith) (omega arith) in
                rw (keep_last now cnt y es g u) (
                  h',
                  rw (s.0, ◌>>=◌) (rw (g, u) ran),
                  same p (λ t. f.0 (sym t)) f.1
                      ∙ store_other h y.address yn p f.0
                      ∙ at
                      ∙ ap (λ (t : Option ℕ). some (record pn { next = t })) next,
                  (here ∙ ap some (after_node (renewed now y) p es), tt),
                  λ x ne a. same x (λ t. a.0 (sym t)) a.1 ∙ store_other h y.address yn x a.0,
                )
            | inr m ↦
                let (h', ran, here, left, same) =
                  refresh_loop-Segment es fuel now (cnt + 1) h1 y.address yn (rest + 1) size
                    (store_self h y.address yn) refl seg1 d.0 d.1 (omega arith) (omega arith) in
                let k = length (keep now (cnt + 1) es) in
                let total : rest + 1 + k ≡ rest + suc k = omega arith in
                rw (keep_more now cnt y es g m) (
                  h',
                  rw (s.0, ◌>>=◌) (rw (g, m) (ran ∙ ap (λ (k : ℕ). some (h', k % 2 ^ 32)) total)),
                  same p (λ t. f.0 (sym t)) f.1
                      ∙ store_other h y.address yn p f.0
                      ∙ at
                      ∙ ap (λ (t : Option ℕ). some (record pn { next = t })) next,
                  (here, left),
                  λ x ne a. same x (λ t. a.0 (sym t)) a.1 ∙ store_other h y.address yn x a.0,
                )
          ]
    ]

-- A pass of `refresh_cache` at the time `now`, with a round of fuel for each entry and one more,
-- leaves a valid cache with the first 256 entries that have not expired, in their order, each with the
-- time it has left as its time to live.
pub refresh_cache-IsCache :
    (fuel now : ℕ) (c : Cache) (es : List Entry)
    → IsCache c es
    → length es < fuel
    → (c' : Cache) × (refresh_cache fuel now c ≡ some c')
      × IsCache c' (take 256 (map (renewed now) (alive now es)))
unfolding refresh_cache
refresh_cache-IsCache fuel now c es v lt =
    let (h', ran, here, seg, same) =
      refresh_loop-Segment es fuel now 0 c.heap c.dummy v.dummy_node 0 c.size v.dummy_at v.linked
        v.segment v.apart v.distinct lt (v.sized ∙ ap (λ (k : ℕ). k % 2 ^ 32) (omega arith)) in
    let kept = keep now 0 es in
    let bare : 0 + length kept ≡ length kept = omega arith in
    let c' : Cache = record c { heap = h'; size = (0 + length kept) % 2 ^ 32 } in
    (
      c',
      rw (v.dummy_at, ◌>>=◌) (rw (v.linked, ran, ◌>>=◌) refl),
      subst (IsCache c') (keep-take now 0 es (omega arith)) (record {
        dummy_node = record v.dummy_node { next = head_of kept };
        dummy_at = here;
        linked = refl;
        segment = seg;
        apart = All-keep (λ a. c.dummy ≢ a) now 0 es v.apart;
        distinct = Distinct-keep now 0 es v.distinct;
        below = All-keep (λ a. a < c.unused) now 0 es v.below;
        dummy_below = v.dummy_below;
        sized = ap (λ (k : ℕ). k % 2 ^ 32) bare;
      }),
    )
