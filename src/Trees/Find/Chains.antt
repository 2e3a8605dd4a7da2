-- ===== src/Trees/Find/Chains.antt =====
-- Writes through the pointer that a find function returned, and the move of a chain to the buckets,
-- as changes of the map from labels.
use mathlib.Core.Option
use native.Mathlib.Decide.{ℕ_discrete}
use baka_dns.Base.{
  ℕ, ◌≡◌, ◌⊎◌, refl, ap, ◌∙◌, false, Option, none, some, List, ◌∷◌, ◌++◌, if◌then◌else◌, ◌>>=◌,
  length, arith, ==_ne, ==_refl, Bool-cases, inl, inr,
}
use baka_dns.Trees.{
  Slots, Chain, end_of_chain, linked_node, Child, Element, rr_hash, same_label, ll_update,
  bucket_set, switch_to_bucket,
}
use baka_dns.Trees.Find.{
  IsSubdomain, domain_of, label_of, label_eq, label_eq→eq, label_eq_refl, label_eq_comm,
  same_label-domain_of, bucket_index, rr_hash-domain_of, find_label, InBucket, IsChain, IsChild,
}

-- The chain with the element of a label changed.
unfoldable pub set_label : Chain → List ℕ → (Element → Element) → Chain
set_label end_of_chain l f = end_of_chain
set_label (linked_node domain slots below next) l f =
    let e = f (record { slots = slots; below = below }) in
    let rest = linked_node domain slots below (set_label next l f) in
    if label_eq l (label_of domain) then linked_node domain e.slots e.below next else rest

pub ll_update-set_label :
    (chain : Chain) (l more : List ℕ) (f : Element → Element)
    → IsChain chain
    → IsSubdomain l
    → ll_update chain (length l ∷ (l ++ more)) f ≡ some (set_label chain l f)
unfolding ll_update set_label IsChain
ll_update-set_label end_of_chain l more f v h = refl
ll_update-set_label (linked_node domain slots below next) l more f v h =
    let d =
      ap (same_label (length l ∷ (l ++ more))) v.1
      ∙ same_label-domain_of l (label_of domain) more h in
    let ih = ll_update-set_label next l more f v.4 h in
    rw (d, ◌>>=◌)
      (elim (Bool-cases (label_eq l (label_of domain))) [ inl t ↦ rw t | inr g ↦ rw (g, ih) ])

pub find_label-set_label :
    (chain : Chain) (l m : List ℕ) (f : Element → Element)
    → find_label (set_label chain l f) m
      ≡ (if label_eq m l then Option.map f (find_label chain l) else find_label chain m)
unfolding find_label set_label
find_label-set_label end_of_chain l m f = ground arith
find_label-set_label (linked_node domain slots below next) l m f =
    let d = label_of domain in
    let ih = find_label-set_label next l m f in
    ground (
      arith,
      ih,
      label_eq→eq l d,
      label_eq→eq m l,
      label_eq_refl d,
      label_eq→eq m d,
      label_eq_comm m l,
    )

pub InBucket-set_label :
    (i : ℕ) (chain : Chain) (l : List ℕ) (f : Element → Element)
    → InBucket i chain
    → InBucket i (set_label chain l f)
unfolding InBucket set_label
InBucket-set_label i end_of_chain l f h = h
InBucket-set_label i (linked_node domain slots below next) l f h =
    elim (Bool-cases (label_eq l (label_of domain))) [
      | inl t ↦ rw (t, InBucket) h
      | inr g ↦ rw (g, InBucket) (h.0, InBucket-set_label i next l f h.1)
    ]

-- A label that no chain has is still not there after a change of another element.
set_label_absent :
    (chain : Chain) (l d : List ℕ) (f : Element → Element)
    → find_label chain d ≡ none
    → find_label (set_label chain l f) d ≡ none
set_label_absent chain l d f h = ground (arith, find_label-set_label chain l d f, label_eq→eq d l)

pub IsChain-set_label :
    (chain : Chain) (l : List ℕ) (f : Element → Element)
    → IsChain chain
    → ((e : Element) → find_label chain l ≡ some e → IsChild (f e).below)
    → IsChain (set_label chain l f)
unfolding IsChain set_label find_label
IsChain-set_label end_of_chain l f v h = v
IsChain-set_label (linked_node domain slots below next) l f v h =
    elim (Bool-cases (label_eq l (label_of domain))) [
      | inl t ↦
          rw (t, IsChain)
            (v.0, v.1, v.2, h (record { slots = slots; below = below }) (rw (t, find_label)), v.4)
      | inr g ↦
          rw (g, IsChain)
            (
              v.0,
              v.1,
              set_label_absent next l (label_of domain) f v.2,
              v.3,
              IsChain-set_label next l f v.4 (λ e p. h e (rw (g, find_label) p)),
            )
    ]

-- The buckets after the move of a chain.
unfoldable pub move : Chain → (ℕ → Chain) → ℕ → Chain
move end_of_chain bucket = bucket
move (linked_node domain slots below next) bucket =
    let i = bucket_index (label_of domain) in
    move next (bucket_set bucket i (linked_node domain slots below (bucket i)))

pub switch_to_bucket-move :
    (chain : Chain) (bucket : ℕ → Chain)
    → IsChain chain
    → switch_to_bucket rr_hash chain bucket ≡ some (move chain bucket)
unfolding switch_to_bucket move IsChain bucket_index
switch_to_bucket-move end_of_chain bucket v = refl
switch_to_bucket-move (linked_node domain slots below next) bucket v =
    let h = ap rr_hash v.1 ∙ rr_hash-domain_of (label_of domain) in
    rw (h, ◌>>=◌) (switch_to_bucket-move next _ v.4)

-- The first answer, or else the second.
abbrev pub or_else {ℓ} : {A : Type ℓ} → Option A → Option A → Option A
or_else none o = o
or_else (some a) o = some a

-- Putting one node at the head of a bucket does not change what is found of other labels.
pub bucket_set_other :
    (domain : List ℕ) (slots : Slots) (below : Child) (bucket : ℕ → Chain) (i k : ℕ) (m : List ℕ)
    → label_eq m (label_of domain) ≡ false
    → find_label (bucket_set bucket i (linked_node domain slots below (bucket i)) k) m
      ≡ find_label (bucket k) m
unfolding find_label
bucket_set_other domain slots below bucket i k m g = elim (ℕ_discrete k i) [
  | yes e ↦ rw (e, ==_refl i, g)
  | no ne ↦ rw (==_ne k i ne)
]

-- A moved label is found, and so is one that was in the buckets before.
pub find_label-move :
    (chain : Chain) (bucket : ℕ → Chain) (m : List ℕ)
    → IsChain chain
    → find_label (move chain bucket (bucket_index m)) m
      ≡ or_else (find_label chain m) (find_label (bucket (bucket_index m)) m)
unfolding move find_label IsChain
find_label-move end_of_chain bucket m v = refl
find_label-move (linked_node domain slots below next) bucket m v =
    let d = label_of domain in
    let i = bucket_index d in
    let ih =
      find_label-move next (bucket_set bucket i (linked_node domain slots below (bucket i))) m
        v.4 in
    ih ∙ elim (Bool-cases (label_eq m d)) [
      | inl t ↦ let e = label_eq→eq m d t in rw (t, e, v.2, ==_refl i) (rw (label_eq_refl d))
      | inr g ↦ rw (g, bucket_set_other domain slots below bucket i (bucket_index m) m g)
    ]

abbrev pub IsBuckets : (ℕ → Chain) → Type 0
IsBuckets bucket = (i : ℕ) → IsChain (bucket i) × InBucket i (bucket i)

-- No label of the chain is in the buckets yet.
abbrev pub Apart : Chain → (ℕ → Chain) → Type 0
Apart chain bucket =
    (m : List ℕ) → (find_label chain m ≡ none) ⊎ (find_label (bucket (bucket_index m)) m ≡ none)

pub bucket_set-IsBuckets :
    (domain : List ℕ) (slots : Slots) (below : Child) (bucket : ℕ → Chain)
    → IsSubdomain (label_of domain)
    → domain ≡ domain_of (label_of domain)
    → IsChild below
    → find_label (bucket (bucket_index (label_of domain))) (label_of domain) ≡ none
    → IsBuckets bucket
    → let i = bucket_index (label_of domain) in
      IsBuckets (bucket_set bucket i (linked_node domain slots below (bucket i)))
unfolding IsChain InBucket
bucket_set-IsBuckets domain slots below bucket s d c absent v j =
    let i = bucket_index (label_of domain) in
    elim (ℕ_discrete j i) [
      | yes e ↦ rw (e, ==_refl i) ((s, d, absent, c, (v i).0), (refl, (v i).1))
      | no ne ↦ rw (==_ne j i ne) (v j)
    ]

pub move-IsBuckets :
    (chain : Chain) (bucket : ℕ → Chain)
    → IsChain chain
    → Apart chain bucket
    → IsBuckets bucket
    → IsBuckets (move chain bucket)
unfolding move IsChain find_label
move-IsBuckets end_of_chain bucket v apart b = b
move-IsBuckets (linked_node domain slots below next) bucket v apart b =
    let d = label_of domain in
    let i = bucket_index d in
    let b' = bucket_set bucket i (linked_node domain slots below (bucket i)) in
    let absent : find_label (bucket i) d ≡ none = ground (arith, apart d, label_eq_refl d) in
    let apart' : Apart next b' = λ m. elim (Bool-cases (label_eq m d)) [
      | inl t ↦ inl (rw (label_eq→eq m d t) v.2)
      | inr g ↦
          rw (bucket_set_other domain slots below bucket i (bucket_index m) m g)
            (ground (arith, apart m))
    ] in
    move-IsBuckets next b' v.4 apart'
      (bucket_set-IsBuckets domain slots below bucket v.0 v.1 v.3 absent b)
