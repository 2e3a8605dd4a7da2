-- ===== src/Trees/Insert/Step.antt =====
-- The rounds of `tree_insert` in src/storage/trees.c, and what a changed element changes in the map
-- from domains.
use native.Mathlib.Decide.{ℕ_discrete}
use baka_dns.Base.{
  ℕ, suc, ◌≡◌, refl, sym, ◌∙◌, true, false, ◌&&◌, Option, none, some, List, [], ◌∷◌, ◌++◌, leb,
  ◌==◌, if◌then◌else◌, ◌>>=◌, length, arith, Option-cases, Bool-cases, inl, inr, ==_ne, ==_refl,
}
use baka_dns.Message.{ResourceRecord, IntRet, ret, minus_one}
use baka_dns.Message.Labels.{Label}
use baka_dns.Trees.{
  TreeNode, no_child, child, Element, rr_hash, tree_node_update, tree_node_insert, tree_insert_loop,
  rename_if, put_record, is_duplicate, only_record, empty_slots, create_tree_node, child_or_new,
}
use baka_dns.Trees.Find.{IsSubdomain, label_eq, label_eq→eq, view, IsTree, tree_node_find-view}
use baka_dns.Trees.Find.Nodes.{Changed}
use baka_dns.Trees.Contents.{
  contents, path_eq, put_list, path_bytes, path_bytes-drop, next_length, path_bytes-next,
  element_contents, contents-view, contents-root, contents-no_child, contents-child_or_new,
}

module _ (index : ℕ) (rr : ResourceRecord) where
  -- One round of the loop, at a label.
  pub insert_step :
      (l : Label) (ls : List Label) (fuel : ℕ) (tn : TreeNode) (rest : List ℕ)
      → IsTree tn
      → IsSubdomain l
      → tree_insert_loop rr_hash index rr (suc fuel) tn (path_bytes (l ∷ ls) rest)
        ≡ elim (view tn l) [
          | some e ↦ elim (next_length ls == 0) [
            | true ↦ put_record index rr e >>= λ (result, e').
                tree_node_update tn (path_bytes (l ∷ ls) rest) (λ _. e') >>= λ tn1.
                rename_if result tn1 (path_bytes (l ∷ ls) rest) >>= λ tn2. some (result, tn2)
            | false ↦
                tree_insert_loop rr_hash index rr fuel (child_or_new e.below) (path_bytes ls rest)
                >>= λ (result, below).
                    tree_node_update tn
                      (path_bytes (l ∷ ls) rest)
                      (λ e. record e { below = child below })
                    >>= λ tn'. some (result, tn')
          ]
          | none ↦ elim (next_length ls == 0) [
            | true ↦
                tree_node_insert rr_hash tn
                  (path_bytes (l ∷ ls) rest)
                  (only_record index rr)
                  no_child
                >>= λ tn'. some (ret 1, tn')
            | false ↦
                tree_node_insert rr_hash tn
                  (path_bytes (l ∷ ls) rest)
                  empty_slots
                  (child create_tree_node)
                >>= λ tn'. tree_insert_loop rr_hash index rr fuel tn' (path_bytes (l ∷ ls) rest)
          ]
        ]
  unfolding tree_insert_loop path_bytes
  insert_step l ls fuel tn rest v h = ground (
    arith,
    h.inhabited,
    path_bytes-next l ls rest,
    tree_node_find-view tn l (path_bytes ls rest) v h,
    path_bytes-drop l ls rest,
  )

  -- How a run of the loop at `tn` ends: with this result, and with a valid tree in which the domain
  -- `p` has the records `news` under the index, and all else is as in `tn`.
  pub record Inserted (tn : TreeNode) (p : List Label) (result : IntRet)
      (news : List ResourceRecord) (out : Option (IntRet × TreeNode)) : Type 0 where
    pub tree : TreeNode
    pub runs : out ≡ some (result, tree)
    pub valid : IsTree tree
    pub seen :
        (q : List Label) (j : ℕ)
        → contents q (child tree) j
          ≡ (if path_eq q p && j == index then news else contents q (child tn) j)

  pub put_record-put_list :
      (e : Element) (result : IntRet) (news : List ResourceRecord)
      → put_list rr (e.slots index) ≡ some (result, news)
      → (e' : Element) × (put_record index rr e ≡ some (result, e'))
        × (e'.below ≡ e.below)
        × ((j : ℕ) → e'.slots j ≡ (if j == index then news else e.slots j))
  unfolding put_record put_list
  put_record-put_list e result news h = elim (Bool-cases (leb 4 (length (e.slots index)))) [
    | inl full ↦
        let same : ◌≡◌ {A = Option (IntRet × List ResourceRecord)} (some (minus_one, e.slots index))
            (some (result, news)) =
          rw full at h in
        (e, rw full (refused same), refl, λ j. kept j same)
    | inr room ↦ elim (Option-cases (is_duplicate rr (e.slots index))) [
      | inl fault ↦ absurd (ground arith)
      | inr (true, dup) ↦
          let same : ◌≡◌ {A = Option (IntRet × List ResourceRecord)}
              (some (minus_one, e.slots index)) (some (result, news)) =
            rw (room, dup, ◌>>=◌) at h in
          (e, rw room (rw (dup, ◌>>=◌) (refused same)), refl, λ j. kept j same)
      | inr (false, fresh) ↦
          let same : ◌≡◌ {A = Option (IntRet × List ResourceRecord)}
              (some (ret 1, e.slots index ++ (rr ∷ []))) (some (result, news)) =
            rw (room, fresh, ◌>>=◌) at h in
          (
            record e { slots = λ i. if i == index then e.slots index ++ (rr ∷ []) else e.slots i },
            rw room (rw (fresh, ◌>>=◌) (cc same)),
            refl,
            λ j. ground (arith, same),
          )
    ]
  ]
    where
      refused :
          ◌≡◌ {A = Option (IntRet × List ResourceRecord)}
            (some (minus_one, e.slots index))
            (some (result, news))
          → ◌≡◌ {A = Option (IntRet × Element)} (some (minus_one, e)) (some (result, e))
      refused same = cc same

      kept :
          (j : ℕ)
          → ◌≡◌ {A = Option (IntRet × List ResourceRecord)}
              (some (minus_one, e.slots index))
              (some (result, news))
          → e.slots j ≡ (if j == index then news else e.slots j)
      kept j same = elim (ℕ_discrete j index) [
        | yes t ↦ rw (t, ==_refl index) (cc same)
        | no f ↦ rw (==_ne j index f)
      ]

  -- A changed element changes the records of the domains through it.
  pub seen_through :
      (tn tn' : TreeNode) (l : Label) (ls : List Label) (old new : Option Element)
      (news : List ResourceRecord)
      → Changed tn l new tn'
      → view tn l ≡ old
      → ((ms : List Label) (j : ℕ)
          → element_contents new ms j
            ≡ (if path_eq ms ls && j == index then news else element_contents old ms j))
      → (q : List Label) (j : ℕ)
      → contents q (child tn') j
        ≡ (if path_eq q (l ∷ ls) && j == index then news else contents q (child tn) j)
  seen_through tn tn' l ls old new news ch is h [] j =
      contents-root tn' j ∙ sym (contents-root tn j)
  seen_through tn tn' l ls old new news ch is h (m ∷ ms) j =
      rw (contents-view m ms tn' j, contents-view m ms tn j, ch.seen m)
        (elim (Bool-cases (label_eq m l)) [
          | inl t ↦ rw (t, label_eq→eq m l t, is) (h ms j)
          | inr g ↦ rw g
        ])

  none_below :
      (ms : List Label) (j : ℕ)
      → element_contents
          (some (record { slots = empty_slots; below = child create_tree_node }))
          ms
          j
        ≡ element_contents none ms j
  unfolding element_contents
  none_below [] j = refl
  none_below (x ∷ xs) j = contents-child_or_new (x ∷ xs) no_child j ∙ contents-no_child (x ∷ xs) j

  -- A new element with an empty child holds no records.
  pub unchanged :
      (tn tn' : TreeNode) (l : Label)
      → Changed tn l (some (record { slots = empty_slots; below = child create_tree_node })) tn'
      → view tn l ≡ none
      → (q : List Label) (j : ℕ) → contents q (child tn') j ≡ contents q (child tn) j
  unfolding element_contents
  unchanged tn tn' l ch is [] j = contents-root tn' j ∙ sym (contents-root tn j)
  unchanged tn tn' l ch is (m ∷ ms) j =
      rw (contents-view m ms tn' j, contents-view m ms tn j, ch.seen m)
        (elim (Bool-cases (label_eq m l)) [
          | inl t ↦ rw (t, label_eq→eq m l t, is) (none_below ms j)
          | inr g ↦ rw g
        ])
