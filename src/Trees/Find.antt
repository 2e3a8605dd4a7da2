-- ===== src/Trees/Find.antt =====
-- A node of src/storage/trees.c as a map from labels, for the walks of `_ll_find` and `_hash_ll_find`.
pub mod Chains
pub mod Nodes
pub mod Rename
use native.Mathlib.Numerals.{add-one}
use native.Mathlib.Decide.{ℕ_discrete}
use baka_dns.Base.{
  ℕ, zero, suc, ◌+◌, ◌-◌, ◌*◌, ◌%◌, ◌^◌, ◌≤◌, ◌<◌, ◌≡◌, ◌≢◌, ◌↔◌, refl, sym, ap, ap₂, ◌∙◌, Bool,
  true, false, ◌&&◌, Option, none, some, List, [], ◌∷◌, ◌++◌, ltb, leb, ◌==◌, if◌then◌else◌, ◌>>=◌,
  zeroed, length, length-append, take, take-append_self, All, arith, ==_ne, ==_iff, Bool-cases, inl,
  inr,
}
use baka_dns.Message.Name.{strncmp_eq}
use baka_dns.Trees.{
  Slots, TreeNode, linked_list, hash_bucket, Chain, end_of_chain, linked_node, Child, no_child,
  child, Element, rr_hash_loop, rr_hash, same_label, ll_find, hash_ll_find, tree_node_find,
}

-- A label that the tree can store: not empty, no zero byte, and with its length byte and a
-- terminator within SUBDOMAIN_MAX.
pub record IsSubdomain (l : List ℕ) : Type 0 where
  pub nonzero : All (λ b. b ≢ 0) l
  pub inhabited : 0 < length l
  pub short : length l < 50

-- The array `domain` of an element that stores a label.
unfoldable pub domain_of : List ℕ → List ℕ
domain_of l = (length l ∷ l) ++ zeroed (49 - length l)

unfoldable pub label_of : List ℕ → List ℕ
label_of [] = []
label_of (n ∷ domain) = take n domain

pub label_of-domain_of : (l : List ℕ) → label_of (domain_of l) ≡ l
unfolding label_of domain_of
label_of-domain_of l = take-append_self l (zeroed (49 - length l))

abbrev pub label_eq : List ℕ → List ℕ → Bool
label_eq [] [] = true
label_eq [] (y ∷ m) = false
label_eq (x ∷ l) [] = false
label_eq (x ∷ l) (y ∷ m) = if x == y then label_eq l m else false

pub label_eq→eq : (l m : List ℕ) → label_eq l m ≡ true → l ≡ m
label_eq→eq [] [] h = refl
label_eq→eq [] (y ∷ m) h = ground arith
label_eq→eq (x ∷ l) [] h = ground arith
label_eq→eq (x ∷ l) (y ∷ m) h = ground (arith, label_eq→eq l m)

pub label_eq_refl : (l : List ℕ) → label_eq l l ≡ true
label_eq_refl [] = refl
label_eq_refl (x ∷ l) = ground (arith, label_eq_refl l)

pub label_eq_comm : (l m : List ℕ) → label_eq l m ≡ label_eq m l
label_eq_comm [] [] = refl
label_eq_comm [] (y ∷ m) = refl
label_eq_comm (x ∷ l) [] = refl
label_eq_comm (x ∷ l) (y ∷ m) = ground (arith, label_eq_comm l m)

label_eq_lengths : (l m : List ℕ) → length l ≢ length m → label_eq l m ≡ false
label_eq_lengths [] [] h = absurd (h refl)
label_eq_lengths [] (y ∷ m) h = refl
label_eq_lengths (x ∷ l) [] h = refl
label_eq_lengths (x ∷ l) (y ∷ m) h = ground (arith, label_eq_lengths l m)

strncmp_eq_next :
    (n x y : ℕ) (a b : List ℕ)
    → x ≢ 0
    → x ≡ y
    → strncmp_eq (suc n) (x ∷ a) (y ∷ b) ≡ strncmp_eq n a b
unfolding strncmp_eq
strncmp_eq_next n x y a b nz e = ground arith

strncmp_eq_differ :
    (n x y : ℕ) (a b : List ℕ) → x ≢ y → strncmp_eq (suc n) (x ∷ a) (y ∷ b) ≡ some false
unfolding strncmp_eq
strncmp_eq_differ n x y a b h = ground arith

strncmp_eq-label :
    (l m more zs : List ℕ)
    → length l ≡ length m
    → All (λ b. b ≢ 0) l
    → strncmp_eq (length l) (l ++ more) (m ++ zs) ≡ some (label_eq l m)
unfolding strncmp_eq
strncmp_eq-label [] [] more zs e h = refl
strncmp_eq-label [] (y ∷ m) more zs e h = absurd (omega arith)
strncmp_eq-label (x ∷ l) [] more zs e h = absurd (omega arith)
strncmp_eq-label (x ∷ l) (y ∷ m) more zs e h =
    let ih = strncmp_eq-label l m more zs (omega arith) h.1 in
    elim (ℕ_discrete x y) [
      | yes t ↦ strncmp_eq_next (length l) x y (l ++ more) (m ++ zs) h.0 t ∙ ground (arith, ih)
      | no f ↦ strncmp_eq_differ (length l) x y (l ++ more) (m ++ zs) f ∙ ground arith
    ]

-- The `strncmp` of the find functions, on a label in a domain and the stored one, is equality.
pub same_label-domain_of :
    (l m more : List ℕ)
    → IsSubdomain l
    → same_label (length l ∷ (l ++ more)) (domain_of m) ≡ some (label_eq l m)
unfolding same_label domain_of
same_label-domain_of l m more v = rw (add-one (length l)) (elim (ℕ_discrete (length l) (length m)) [
  | yes t ↦
      strncmp_eq_next (length l) (length l) (length m) (l ++ more) _ (omega (arith, v.inhabited)) t
      ∙ strncmp_eq-label l m more (zeroed (49 - length m)) t v.nonzero
  | no f ↦
      strncmp_eq_differ (length l) (length l) (length m) (l ++ more) _ f
      ∙ ap some (sym (label_eq_lengths l m f))
])

-- The BKDR hash of some bytes.
abbrev pub bkdr : List ℕ → ℕ → ℕ
bkdr [] hsh = hsh
bkdr (b ∷ bs) hsh = bkdr bs ((hsh * 131 + b) % 2 ^ 32)

unfoldable pub label_hash : List ℕ → ℕ
label_hash l = bkdr (take (length l) (length l ∷ l)) 0

rr_hash_loop-bkdr :
    (n : ℕ) (ptr more : List ℕ) (hsh : ℕ)
    → n ≤ length ptr
    → rr_hash_loop n (ptr ++ more) hsh ≡ some (bkdr (take n ptr) hsh)
unfolding rr_hash_loop
rr_hash_loop-bkdr zero ptr more hsh h = refl
rr_hash_loop-bkdr (suc n) [] more hsh h = absurd (omega arith)
rr_hash_loop-bkdr (suc n) (b ∷ ptr) more hsh h =
    rr_hash_loop-bkdr n ptr more ((hsh * 131 + b) % 2 ^ 32) (omega arith)

-- `rr_hash` stays within the label, and depends on nothing else.
pub rr_hash-label : (l more : List ℕ) → rr_hash (length l ∷ (l ++ more)) ≡ some (label_hash l)
unfolding rr_hash label_hash
rr_hash-label l more = rr_hash_loop-bkdr (length l) (length l ∷ l) more 0 (omega arith)

pub rr_hash-domain_of : (l : List ℕ) → rr_hash (domain_of l) ≡ some (label_hash l)
unfolding domain_of
rr_hash-domain_of l = rr_hash-label l (zeroed (49 - length l))

unfoldable pub bucket_index : List ℕ → ℕ
bucket_index l = label_hash l % 1024

-- The element of a label in a chain.
unfoldable pub find_label : Chain → List ℕ → Option Element
find_label end_of_chain l = none
find_label (linked_node domain slots below next) l =
    if label_eq l (label_of domain)
    then some (record { slots = slots; below = below })
    else find_label next l

-- The element of a label in a node.
unfoldable pub view : TreeNode → List ℕ → Option Element
view (linked_list size chain) l = find_label chain l
view (hash_bucket size bucket) l = find_label (bucket (bucket_index l)) l

-- All labels of a chain belong in the bucket.
unfoldable pub InBucket : ℕ → Chain → Type 0
InBucket i end_of_chain = Unit
InBucket i (linked_node domain slots below next) =
    (bucket_index (label_of domain) ≡ i) × InBucket i next

-- The representation invariant: every domain stores a label, no chain has a label twice, every
-- label is in the bucket of its hash, and so in the trees below.
unfoldable mutual
  pub IsTree : TreeNode → Type 0
  IsTree (linked_list size chain) = IsChain chain
  IsTree (hash_bucket size bucket) = (i : ℕ) → IsChain (bucket i) × InBucket i (bucket i)

  pub IsChain : Chain → Type 0
  IsChain end_of_chain = Unit
  IsChain (linked_node domain slots below next) =
      IsSubdomain (label_of domain)
      × (domain ≡ domain_of (label_of domain))
      × (find_label next (label_of domain) ≡ none)
      × IsChild below
      × IsChain next

  pub IsChild : Child → Type 0
  IsChild no_child = Unit
  IsChild (child tn) = IsTree tn

ll_find-find_label :
    (chain : Chain) (l more : List ℕ)
    → IsChain chain
    → IsSubdomain l
    → ll_find chain (length l ∷ (l ++ more)) ≡ some (find_label chain l)
unfolding ll_find find_label IsChain
ll_find-find_label end_of_chain l more v h = refl
ll_find-find_label (linked_node domain slots below next) l more v h =
    let d =
      ap (same_label (length l ∷ (l ++ more))) v.1
      ∙ same_label-domain_of l (label_of domain) more h in
    let ih = ll_find-find_label next l more v.4 h in
    rw (d, ◌>>=◌)
      (elim (Bool-cases (label_eq l (label_of domain))) [ inl t ↦ rw t | inr f ↦ rw (f, ih) ])

-- `tree_node_find` finds the element of a label in a node, of either kind.
pub tree_node_find-view :
    (tn : TreeNode) (l more : List ℕ)
    → IsTree tn
    → IsSubdomain l
    → tree_node_find tn (length l ∷ (l ++ more)) ≡ some (view tn l)
unfolding tree_node_find view hash_ll_find IsTree bucket_index
tree_node_find-view (linked_list size chain) l more v h = ll_find-find_label chain l more v h
tree_node_find-view (hash_bucket size bucket) l more v h =
    rw (rr_hash-label l more, ◌>>=◌)
      (ll_find-find_label (bucket (label_hash l % 1024)) l more (v (label_hash l % 1024)).0 h)
