-- ===== src/Trees/Find/Rename.antt =====
-- The label that `tree_insert` of src/storage/trees.c writes over the one that was found.
use native.Mathlib.Decide.{ℕ_discrete}
use native.Mathlib.Numerals.{add-one}
use baka_dns.Base.{
  ℕ, ◌-◌, ◌%◌, ◌≡◌, refl, sym, ap, ◌∙◌, Option, some, List, [], ◌∷◌, ◌++◌, ◌>>=◌, length,
  drop-append_self, zeroed, length-append, arith, Bool-cases, inl, inr, read_bytes-drop,
  write_bytes-append, ==_ne, ==_refl,
}
use baka_dns.Message.{IntRet, ret, minus_one}
use baka_dns.Trees.{
  TreeNode, linked_list, hash_bucket, Chain, end_of_chain, linked_node, same_label, write_domain,
  ll_rename, tree_node_rename, rename_if, bucket_set,
}
use baka_dns.Trees.Find.{
  IsSubdomain, domain_of, label_of, label_eq, label_eq→eq, label_hash, rr_hash-label,
  same_label-domain_of, IsTree, IsChain,
}

write_domain_same :
    (l more : List ℕ)
    → IsSubdomain l
    → write_domain (length l ∷ (l ++ more)) (domain_of l) ≡ some (domain_of l)
unfolding write_domain domain_of
write_domain_same l more h =
    let label = length l ∷ l in
    let zs = zeroed (49 - length l) in
    rw (add-one (length l), read_bytes-drop (length l ∷ (l ++ more)) 0 label more refl, ◌>>=◌)
      (write_bytes-append [] label (label ++ zs) 0 refl (omega (arith, length-append label zs))
        ∙ ap (λ (k : List ℕ). some (label ++ k)) (drop-append_self label zs))

ll_rename_same :
    (chain : Chain) (l more : List ℕ)
    → IsChain chain
    → IsSubdomain l
    → ll_rename chain (length l ∷ (l ++ more)) ≡ some chain
unfolding ll_rename IsChain
ll_rename_same end_of_chain l more v h = refl
ll_rename_same (linked_node domain slots below next) l more v h =
    let d =
      ap (same_label (length l ∷ (l ++ more))) v.1
      ∙ same_label-domain_of l (label_of domain) more h in
    rw (d, ◌>>=◌)
      (elim (Bool-cases (label_eq l (label_of domain))) [
        | inl t ↦
            let same : domain ≡ domain_of l =
              v.1 ∙ ap domain_of (sym (label_eq→eq l (label_of domain) t)) in
            rw t (
              ap (λ (m : Option (List ℕ)). m >>= λ d. some (linked_node d slots below next))
                (ap (write_domain (length l ∷ (l ++ more))) same
                  ∙ write_domain_same l more h
                  ∙ ap some (sym same)))
        | inr g ↦ rw (g, ll_rename_same next l more v.4 h, ◌>>=◌) refl
      ])

bucket_set_same : (bucket : ℕ → Chain) (i : ℕ) → bucket_set bucket i (bucket i) ≡ bucket
bucket_set_same bucket i = λ k j. at j k
  where
    at : (j : ℕ) → bucket_set bucket i (bucket i) j ≡ bucket j
    at j = elim (ℕ_discrete j i) [ yes t ↦ rw (t, ==_refl i) refl | no f ↦ rw (==_ne j i f) refl ]

-- In a valid tree the label was the same.
pub rename_if_same :
    (result : IntRet) (tn : TreeNode) (l more : List ℕ)
    → IsTree tn
    → IsSubdomain l
    → rename_if result tn (length l ∷ (l ++ more)) ≡ some tn
unfolding rename_if tree_node_rename IsTree
rename_if_same minus_one tn l more v h = refl
rename_if_same (ret n) (linked_list size chain) l more v h =
    rw (ll_rename_same chain l more v h, ◌>>=◌) refl
rename_if_same (ret n) (hash_bucket size bucket) l more v h =
    let i = label_hash l % 1024 in
    rw (rr_hash-label l more, ◌>>=◌)
      (rw (ll_rename_same (bucket i) l more (v i).0 h, ◌>>=◌)
        (ap (λ (b : ℕ → Chain). some (hash_bucket size b)) (bucket_set_same bucket i)))
