-- ===== src/Trees/Search.antt =====
-- `tree_search` of src/storage/trees.c on the map from domains.
use baka_dns.Base.{
  ℕ, zero, suc, ◌<◌, ◌≡◌, refl, sym, ◌∙◌, true, false, Option, none, some, List, [], ◌∷◌, ◌++◌,
  ◌==◌, ◌>>=◌, length, arith, Option-cases, inl, inr, All, ==_ne,
}
use baka_dns.Message.{ResourceRecord, ret}
use baka_dns.Message.Labels.{Label, encode_labels}
use baka_dns.Message.Record.{rr_copy, copy_rdata}
use baka_dns.Message.Wire.{IsName, HoldsData}
use baka_dns.Message.Wire.Write.{domain_len-IsName, read_bytes_whole}
use baka_dns.Trees.{
  TreeNode, Child, no_child, child, tree_search_loop, tree_search, copy_records, element_index,
}
use baka_dns.Trees.Find.{IsSubdomain, view, IsTree, IsChild, tree_node_find-view}
use baka_dns.Trees.Contents.{
  contents, path_bytes, path_bytes-encode_labels, path_bytes-drop, next_length, path_bytes-next,
  view-IsChild,
}

no_records : copy_records [] ≡ some []
unfolding copy_records
no_records = refl

-- One round of the loop, at a label.
search_step :
    (l : Label) (ls : List Label) (index fuel : ℕ) (tn : TreeNode) (rest : List ℕ)
    → IsTree tn
    → IsSubdomain l
    → tree_search_loop index (suc fuel) (child tn) (path_bytes (l ∷ ls) rest) ≡ elim (view tn l) [
      | none ↦ some []
      | some e ↦ elim (next_length ls == 0) [
        | true ↦ copy_records (e.slots index)
        | false ↦ tree_search_loop index fuel e.below (path_bytes ls rest)
      ]
    ]
unfolding tree_search_loop path_bytes
search_step l ls index fuel tn rest v h = ground (
  arith,
  h.inhabited,
  path_bytes-next l ls rest,
  tree_node_find-view tn l (path_bytes ls rest) v h,
  path_bytes-drop l ls rest,
)

search_none :
    (domain : List ℕ) (index fuel : ℕ) → tree_search_loop index (suc fuel) no_child domain ≡ some []
unfolding tree_search_loop
search_none domain index fuel = refl

search_root :
    (index fuel : ℕ) (tn : TreeNode) (rest : List ℕ)
    → tree_search_loop index (suc fuel) (child tn) (path_bytes [] rest) ≡ some []
unfolding tree_search_loop path_bytes
search_root index fuel tn rest = refl

tree_search_loop-contents :
    (ls : List Label) (index fuel : ℕ) (c : Child) (rest : List ℕ)
    → IsChild c
    → All IsSubdomain ls
    → length ls < fuel
    → tree_search_loop index fuel c (path_bytes ls rest) ≡ copy_records (contents ls c index)
unfolding contents IsChild next_length
tree_search_loop-contents ls index zero c rest v h lt = absurd (omega arith)
tree_search_loop-contents [] index (suc fuel) no_child rest v h lt =
    search_none (path_bytes [] rest) index fuel ∙ sym no_records
tree_search_loop-contents (l ∷ ls) index (suc fuel) no_child rest v h lt =
    search_none (path_bytes (l ∷ ls) rest) index fuel ∙ sym no_records
tree_search_loop-contents [] index (suc fuel) (child tn) rest v h lt =
    search_root index fuel tn rest ∙ sym no_records
tree_search_loop-contents (l ∷ []) index (suc fuel) (child tn) rest v h lt =
    search_step l [] index fuel tn rest v h.0 ∙ elim (Option-cases (view tn l)) [
      | inl e ↦ rw (e, contents) (sym no_records)
      | inr (x, e) ↦ rw (e, contents)
    ]
tree_search_loop-contents (l ∷ m ∷ ls) index (suc fuel) (child tn) rest v h lt =
    search_step l (m ∷ ls) index fuel tn rest v h.0 ∙ elim (Option-cases (view tn l)) [
      | inl e ↦ rw (e, contents) (sym no_records)
      | inr (x, e) ↦
          rw (e, ==_ne (length m) 0 (omega (arith, h.1.0.inhabited)), contents)
            (tree_search_loop-contents (m ∷ ls) index fuel x.below rest (view-IsChild tn l x v e)
              h.1 (omega arith))
    ]

-- A record whose name and data can be copied.
abbrev pub IsStored : ResourceRecord → Type 0
IsStored rr = IsName rr.name × HoldsData rr.rdlength rr.rdata

copy_rdata_self : (n : ℕ) (d : Option (List ℕ)) → HoldsData n d → copy_rdata n d ≡ some d
unfolding copy_rdata
copy_rdata_self n none h = rw h
copy_rdata_self n (some bytes) h =
    rw (==_ne n 0 (omega arith)) (rw (← h.0, read_bytes_whole bytes, ◌>>=◌))

-- `rr_copy` makes an equal record.
pub rr_copy_self : (rr : ResourceRecord) → IsStored rr → rr_copy rr ≡ some (ret 1, rr)
unfolding rr_copy
rr_copy_self rr h =
    rw (domain_len-IsName rr.name h.0, ◌>>=◌)
      (rw (copy_rdata_self rr.rdlength rr.rdata h.1, ◌>>=◌) (rw (read_bytes_whole rr.name, ◌>>=◌)))

pub copy_records_self : (rrs : List ResourceRecord) → All IsStored rrs → copy_records rrs ≡ some rrs
unfolding copy_records
copy_records_self [] h = refl
copy_records_self (rr ∷ rrs) h =
    rw (rr_copy_self rr h.0, ◌>>=◌) (rw (copy_records_self rrs h.1, ◌>>=◌))

-- What the tree holds for a domain and a record type.
unfoldable pub stored : TreeNode → List Label → ℕ → List ResourceRecord
stored root ls rr_type = elim (element_index rr_type) [
  | none ↦ []
  | some index ↦ contents ls (child root) index
]

-- `tree_search` on a valid tree returns exactly the records that the tree holds for the domain and
-- the type, with a round of fuel for each label and one more. For a type that the tree does not
-- store, for a domain that it does not have and for the root there are none.
pub tree_search-stored :
    (fuel : ℕ) (root : TreeNode) (ls : List Label) (rest : List ℕ) (rr_type : ℕ)
    → IsTree root
    → All IsSubdomain ls
    → length ls < fuel
    → All IsStored (stored root ls rr_type)
    → tree_search fuel root (encode_labels ls ++ rest) rr_type ≡ some (stored root ls rr_type)
unfolding tree_search stored IsChild
tree_search-stored fuel root ls rest rr_type v h lt c =
    elim (Option-cases (element_index rr_type)) [
      | inl e ↦ rw (e, tree_search, stored)
      | inr (index, e) ↦
          rw (e, path_bytes-encode_labels ls rest, tree_search, stored)
            (tree_search_loop-contents ls index fuel (child root) rest v h lt
              ∙ copy_records_self (contents ls (child root) index) (rw (e, stored) at c))
    ]
