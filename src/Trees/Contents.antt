-- ===== src/Trees/Contents.antt =====
-- The tree as a map from domains, given by their labels from the top down, and record indices to
-- lists of records.
use baka_dns.Base.{
  ℕ, suc, ◌+◌, ◌≡◌, refl, sym, ap, subst, ◌∙◌, Bool, true, false, Option, none, some, List, [], ◌∷◌,
  ◌++◌, leb, if◌then◌else◌, ◌>>=◌, length, arith, append_assoc, Bool-cases, Option-cases, inl, inr,
  get_elem?, drop, get_elem?-drop, drop-skip,
}
use baka_dns.Message.{ResourceRecord, IntRet, ret, minus_one}
use baka_dns.Message.Labels.{Label, label_bytes, encode_labels}
use baka_dns.Trees.{
  TreeNode, linked_list, hash_bucket, Chain, end_of_chain, linked_node, Child, no_child, child,
  Element, is_duplicate, create_tree_node, child_or_new,
}
use baka_dns.Trees.Find.{
  label_eq, label_of, find_label, view, IsTree, IsChain, IsChild, bucket_index,
}

-- The records of a domain under an index.
unfoldable pub contents : List Label → Child → ℕ → List ResourceRecord
contents ls no_child index = []
contents [] (child tn) index = []
contents (l ∷ []) (child tn) index = elim (view tn l) [ none ↦ [] | some e ↦ e.slots index ]
contents (l ∷ m ∷ ls) (child tn) index = elim (view tn l) [
  | none ↦ []
  | some e ↦ contents (m ∷ ls) e.below index
]

abbrev pub path_eq : List Label → List Label → Bool
path_eq [] [] = true
path_eq [] (m ∷ ms) = false
path_eq (l ∷ ls) [] = false
path_eq (l ∷ ls) (m ∷ ms) = if label_eq l m then path_eq ls ms else false

-- What an insertion makes of the records of its domain: refused with -1 at four records and for a
-- duplicate, appended otherwise.
unfoldable pub put_list :
    ResourceRecord → List ResourceRecord → Option (IntRet × List ResourceRecord)
put_list rr olds =
    if leb 4 (length olds)
    then some (minus_one, olds)
    else (is_duplicate rr olds >>= λ duplicate.
        if duplicate then some (minus_one, olds) else some (ret 1, olds ++ (rr ∷ [])))

-- The bytes of a domain, and what stands behind them.
unfoldable pub path_bytes : List Label → List ℕ → List ℕ
path_bytes [] rest = 0 ∷ rest
path_bytes (l ∷ ls) rest = length l ∷ (l ++ path_bytes ls rest)

pub path_bytes-encode_labels :
    (ls : List Label) (rest : List ℕ) → encode_labels ls ++ rest ≡ path_bytes ls rest
unfolding encode_labels path_bytes
path_bytes-encode_labels [] rest = refl
path_bytes-encode_labels (l ∷ ls) rest =
    ap (λ (k : List ℕ). length l ∷ (k ++ rest)) (append_assoc l (label_bytes ls) (0 ∷ []))
    ∙ ap (◌∷◌ (length l))
        (append_assoc l (encode_labels ls) rest ∙ ap (◌++◌ l) (path_bytes-encode_labels ls rest))

-- The domain behind the first label.
pub path_bytes-drop :
    (l : Label) (ls : List Label) (rest : List ℕ)
    → drop (length l + 1) (path_bytes (l ∷ ls) rest) ≡ path_bytes ls rest
unfolding path_bytes
path_bytes-drop l ls rest =
    let e : 0 + suc (length l) ≡ length l + 1 = omega arith in
    ap (λ k. drop k (length l ∷ (l ++ path_bytes ls rest))) (sym e)
    ∙ drop-skip (length l ∷ (l ++ path_bytes ls rest)) 0 (length l ∷ l) (path_bytes ls rest) refl

-- The length byte behind the first label.
unfoldable pub next_length : List Label → ℕ
next_length [] = 0
next_length (l ∷ ls) = length l

pub path_bytes-next :
    (l : Label) (ls : List Label) (rest : List ℕ)
    → get_elem? (path_bytes (l ∷ ls) rest) (length l + 1) ≡ some (next_length ls)
unfolding next_length path_bytes
path_bytes-next l [] rest =
    get_elem?-drop (path_bytes (l ∷ []) rest) (length l + 1) 0 rest (path_bytes-drop l [] rest)
path_bytes-next l (m ∷ ls) rest =
    get_elem?-drop (path_bytes (l ∷ m ∷ ls) rest) (length l + 1) (length m) _
      (path_bytes-drop l (m ∷ ls) rest)

find_label-IsChild :
    (chain : Chain) (l : List ℕ) (e : Element)
    → IsChain chain
    → find_label chain l ≡ some e
    → IsChild e.below
unfolding IsChain find_label
find_label-IsChild end_of_chain l e v h = absurd (ground arith)
find_label-IsChild (linked_node domain slots below next) l e v h =
    elim (Bool-cases (label_eq l (label_of domain))) [
      | inl t ↦
          let same : ◌≡◌ {A = Option Element} (some (record { slots = slots; below = below }))
              (some e) =
            rw t at h in
          subst IsChild (below_of (record { slots = slots; below = below }) e same) v.3
      | inr g ↦ find_label-IsChild next l e v.4 (rw g at h)
    ]
  where
    below_of : (a b : Element) → some a ≡ some b → a.below ≡ b.below
    below_of a b p = cc

-- The tree below an element that a node has is valid.
pub view-IsChild :
    (tn : TreeNode) (l : List ℕ) (e : Element) → IsTree tn → view tn l ≡ some e → IsChild e.below
unfolding IsTree view
view-IsChild (linked_list size chain) l e v h = find_label-IsChild chain l e v h
view-IsChild (hash_bucket size bucket) l e v h =
    find_label-IsChild (bucket (bucket_index l)) l e (v (bucket_index l)).0 h

pub create_tree_node-IsTree : IsTree create_tree_node
unfolding create_tree_node IsTree
create_tree_node-IsTree = tt

pub child_or_new-IsTree : (c : Child) → IsChild c → IsTree (child_or_new c)
unfolding IsTree
child_or_new-IsTree no_child v = create_tree_node-IsTree
child_or_new-IsTree (child tn) v = v

-- A new tree holds nothing, as no tree does.
pub contents-child_or_new :
    (ls : List Label) (c : Child) (index : ℕ)
    → contents ls (child (child_or_new c)) index ≡ contents ls c index
unfolding contents create_tree_node view find_label
contents-child_or_new [] no_child index = refl
contents-child_or_new (l ∷ []) no_child index = refl
contents-child_or_new (l ∷ m ∷ ls) no_child index = refl
contents-child_or_new ls (child tn) index = refl

-- The records that an element holds for a rest of a domain.
unfoldable pub element_contents : Option Element → List Label → ℕ → List ResourceRecord
element_contents none ls index = []
element_contents (some e) [] index = e.slots index
element_contents (some e) (l ∷ ls) index = contents (l ∷ ls) e.below index

pub contents-view :
    (l : Label) (ls : List Label) (tn : TreeNode) (index : ℕ)
    → contents (l ∷ ls) (child tn) index ≡ element_contents (view tn l) ls index
unfolding contents element_contents
contents-view l [] tn index = elim (Option-cases (view tn l)) [
  | inl e ↦ rw (e, contents)
  | inr (x, e) ↦ rw (e, contents)
]
contents-view l (m ∷ ls) tn index = elim (Option-cases (view tn l)) [
  | inl e ↦ rw (e, contents)
  | inr (x, e) ↦ rw (e, contents)
]

pub contents-root : (tn : TreeNode) (index : ℕ) → contents [] (child tn) index ≡ []
unfolding contents
contents-root tn index = refl

pub contents-no_child : (ls : List Label) (index : ℕ) → contents ls no_child index ≡ []
unfolding contents
contents-no_child [] index = refl
contents-no_child (l ∷ ls) index = refl
