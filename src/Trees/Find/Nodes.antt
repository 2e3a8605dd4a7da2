-- ===== src/Trees/Find/Nodes.antt =====
-- `tree_node_insert` of src/storage/trees.c, and a write through the pointer that `tree_node_find`
-- returned, as changes of the map from labels.
use mathlib.Core.Option
use native.Mathlib.Numerals.{add-one}
use native.Mathlib.Decide.{ℕ_discrete}
use baka_dns.Base.{
  ℕ, suc, ◌+◌, ◌-◌, ◌%◌, ◌^◌, ◌≡◌, refl, sym, ap, ◌∙◌, Bool, true, false, ◌||◌, Option, none, some,
  List, [], ◌∷◌, ◌++◌, ltb, if◌then◌else◌, ◌>>=◌, length, arith, ==_ne, ==_refl, Bool-cases, inl,
  inr, read_bytes, write_bytes, read_bytes-drop, write_bytes-append, zeroed, drop-zeroed,
  length-zeroed,
}
use baka_dns.Trees.{
  Slots, TreeNode, linked_list, hash_bucket, Chain, end_of_chain, linked_node, Child, Element,
  rr_hash, tree_node_update, tree_node_insert, bucket_set,
}
use baka_dns.Trees.Find.{
  IsSubdomain, domain_of, label_of, label_of-domain_of, label_eq, label_eq→eq, label_eq_refl,
  bucket_index, label_hash, rr_hash-label, find_label, view, InBucket, IsTree, IsChain, IsChild,
}
use baka_dns.Trees.Find.Chains.{
  set_label, ll_update-set_label, find_label-set_label, InBucket-set_label, IsChain-set_label, move,
  switch_to_bucket-move, find_label-move, move-IsBuckets, IsBuckets, Apart, bucket_set_other,
  bucket_set-IsBuckets, or_else,
}

-- The node `tn'` is valid, and differs from `tn` in what it has for one label.
pub record Changed (tn : TreeNode) (l : List ℕ) (new : Option Element) (tn' : TreeNode)
    : Type 0 where
  pub valid : IsTree tn'
  pub seen : (m : List ℕ) → view tn' m ≡ (if label_eq m l then new else view tn m)

hash_ll_update :
    (l more : List ℕ) (f : Element → Element) (bucket : ℕ → Chain) (size : ℕ)
    → IsSubdomain l
    → IsChain (bucket (bucket_index l))
    → tree_node_update (hash_bucket size bucket) (length l ∷ (l ++ more)) f
      ≡ some (
          hash_bucket size
            (bucket_set bucket (bucket_index l) (set_label (bucket (bucket_index l)) l f)))
unfolding tree_node_update bucket_index
hash_ll_update l more f bucket size h v =
    rw (rr_hash-label l more, ◌>>=◌)
      (rw (ll_update-set_label (bucket (label_hash l % 1024)) l more f v h, ◌>>=◌))

-- A write through the pointer that `tree_node_find` returned changes the element of that label.
pub tree_node_update-Changed :
    (tn : TreeNode) (l more : List ℕ) (f : Element → Element)
    → IsTree tn
    → IsSubdomain l
    → ((e : Element) → view tn l ≡ some e → IsChild (f e).below)
    → (tn' : TreeNode) × (tree_node_update tn (length l ∷ (l ++ more)) f ≡ some tn')
      × Changed tn l (Option.map f (view tn l)) tn'
unfolding tree_node_update view IsTree
tree_node_update-Changed (linked_list size chain) l more f v h c = (
  linked_list size (set_label chain l f),
  rw (ll_update-set_label chain l more f v h, ◌>>=◌),
  record { valid = IsChain-set_label chain l f v c; seen = λ m. find_label-set_label chain l m f },
)
tree_node_update-Changed (hash_bucket size bucket) l more f v h c =
    let i = bucket_index l in
    let chain = set_label (bucket i) l f in
    let b' = bucket_set bucket i chain in
    (
      hash_bucket size b',
      hash_ll_update l more f bucket size h (v i).0,
      record {
        valid = λ j. elim (ℕ_discrete j i) [
          | yes e ↦
              rw (e, ==_refl i)
                (
                  IsChain-set_label (bucket i) l f (v i).0 c,
                  InBucket-set_label i (bucket i) l f (v i).1,
                )
          | no ne ↦ rw (==_ne j i ne) (v j)
        ];
        seen = λ m. elim (Bool-cases (label_eq m l)) [
          | inl t ↦
              rw (t, label_eq→eq m l t, ==_refl i)
                (find_label-set_label (bucket i) l l f ∙ rw (label_eq_refl l))
          | inr g ↦ elim (ℕ_discrete (bucket_index m) i) [
            | yes e ↦ rw (e, ==_refl i, g) (find_label-set_label (bucket i) l m f ∙ rw g)
            | no ne ↦ rw (==_ne (bucket_index m) i ne, g)
          ]
        ];
      },
    )

-- The array `domain` of a new node holds the label, which fits.
read_label :
    (l more : List ℕ) → read_bytes (length l ∷ (l ++ more)) 0 (length l + 1) ≡ some (length l ∷ l)
read_label l more =
    rw (add-one (length l)) (read_bytes-drop (length l ∷ (l ++ more)) 0 (length l ∷ l) more refl)

store_label :
    (l : List ℕ) → IsSubdomain l → write_bytes (zeroed 50) 0 (length l ∷ l) ≡ some (domain_of l)
unfolding domain_of
store_label l h =
    let n = length l in
    let e : 50 - suc n ≡ 49 - n = omega arith in
    write_bytes-append [] (n ∷ l) (zeroed 50) 0 refl (omega (arith, length-zeroed 50, h.short))
    ∙ ap (λ (z : List ℕ). some ((n ∷ l) ++ z))
        (drop-zeroed (suc n) 50 (omega (arith, h.short)) ∙ ap zeroed e)

-- The number of labels that a node counts, and whether it has buckets.
abbrev pub size_of : TreeNode → ℕ
size_of (linked_list size chain) = size
size_of (hash_bucket size bucket) = size

abbrev pub has_buckets : TreeNode → Bool
has_buckets (linked_list size chain) = false
has_buckets (hash_bucket size bucket) = true

-- The node counts one label more, and has buckets if it had them or now counts more than 32.
abbrev pub Grows : TreeNode → TreeNode → Type 0
Grows tn tn' =
    (size_of tn' ≡ (size_of tn + 1) % 2 ^ 32)
    × (has_buckets tn' ≡ (has_buckets tn || ltb 32 (size_of tn')))

-- The chain with a new node in front.
module _ (l : List ℕ) (slots : Slots) (below : Child) (h : IsSubdomain l) (c : IsChild below) where
  stored : IsSubdomain (label_of (domain_of l)) × (domain_of l ≡ domain_of (label_of (domain_of l)))
  stored = rw (label_of-domain_of l) (h, refl)

  front-IsChain :
      (chain : Chain)
      → IsChain chain
      → find_label chain l ≡ none
      → IsChain (linked_node (domain_of l) slots below chain)
  unfolding IsChain
  front-IsChain chain v absent = (stored.0, stored.1, rw (label_of-domain_of l) absent, c, v)

  front_seen :
      (chain : Chain) (m : List ℕ)
      → find_label (linked_node (domain_of l) slots below chain) m ≡ (
          if label_eq m l
          then some (record { slots = slots; below = below })
          else find_label chain m)
  unfolding find_label
  front_seen chain m = rw (label_of-domain_of l)

  empty-Apart : (chain : Chain) → Apart chain (λ _. end_of_chain)
  unfolding find_label
  empty-Apart chain m = inr refl

  empty-IsBuckets : IsBuckets (λ _. end_of_chain)
  unfolding IsChain InBucket
  empty-IsBuckets i = (tt, tt)

  or_else-none : (o : Option Element) → or_else o none ≡ o
  or_else-none none = refl
  or_else-none (some e) = refl

  nothing : (m : List ℕ) → find_label end_of_chain m ≡ none
  unfolding find_label
  nothing m = refl

  hash_insert :
      (bucket : ℕ → Chain) (size : ℕ) (more : List ℕ)
      → tree_node_insert rr_hash (hash_bucket size bucket) (length l ∷ (l ++ more)) slots below
        ≡ some (
            hash_bucket ((size + 1) % 2 ^ 32) (
              bucket_set bucket
                (bucket_index l)
                (linked_node (domain_of l) slots below (bucket (bucket_index l)))))
  unfolding tree_node_insert bucket_index
  hash_insert bucket size more =
      rw (read_label l more, ◌>>=◌) (rw (store_label l h, ◌>>=◌) (rw (rr_hash-label l more, ◌>>=◌)))

  -- `tree_node_insert` of a label that the node does not have adds its element and counts it, and
  -- keeps the node valid. Afterwards the node has buckets if it had them before or counts more than 32
  -- labels, and else a chain.
  pub tree_node_insert-Changed :
      (tn : TreeNode) (more : List ℕ)
      → IsTree tn
      → view tn l ≡ none
      → (tn' : TreeNode) × (tree_node_insert rr_hash tn (length l ∷ (l ++ more)) slots below
          ≡ some tn')
        × Changed tn l (some (record { slots = slots; below = below })) tn'
        × Grows tn tn'
  unfolding tree_node_insert view IsTree
  tree_node_insert-Changed (hash_bucket size bucket) more v absent =
      let i = bucket_index l in
      let b' = bucket_set bucket i (linked_node (domain_of l) slots below (bucket i)) in
      let e = label_of-domain_of l in
      (
        hash_bucket ((size + 1) % 2 ^ 32) b',
        hash_insert bucket size more,
        record {
          valid =
              (rw e at (
                bucket_set-IsBuckets (domain_of l) slots below bucket stored.0 stored.1 c
                  (rw e absent) v));
          seen = λ m. elim (Bool-cases (label_eq m l)) [
            | inl t ↦
                rw (t, label_eq→eq m l t, ==_refl i)
                  (front_seen (bucket i) l ∙ rw (label_eq_refl l))
            | inr g ↦
                rw g
                  (bucket_set_other (domain_of l) slots below bucket i (bucket_index m) m (rw e g))
          ];
        },
        (refl, refl),
      )
  tree_node_insert-Changed (linked_list size chain) more v absent =
      let chain' = linked_node (domain_of l) slots below chain in
      let v' = front-IsChain chain v absent in
      elim (Bool-cases (ltb 32 ((size + 1) % 2 ^ 32))) [
        | inr g ↦ (
          linked_list ((size + 1) % 2 ^ 32) chain',
          rw (read_label l more, ◌>>=◌) (rw (store_label l h, ◌>>=◌) (rw g)),
          record { valid = v'; seen = front_seen chain },
          (refl, sym g),
        )
        | inl t ↦ (
          hash_bucket ((size + 1) % 2 ^ 32) (move chain' (λ _. end_of_chain)),
          rw (read_label l more, ◌>>=◌)
              (rw (store_label l h, ◌>>=◌)
                (rw t (rw (switch_to_bucket-move chain' (λ _. end_of_chain) v', ◌>>=◌)))),
          record {
            valid =
                move-IsBuckets chain' (λ _. end_of_chain) v' (empty-Apart chain') empty-IsBuckets;
            seen = λ m.
                find_label-move chain' (λ _. end_of_chain) m v'
                ∙ rw (nothing m) (or_else-none _ ∙ front_seen chain m);
          },
          (refl, sym t),
        )
      ]
