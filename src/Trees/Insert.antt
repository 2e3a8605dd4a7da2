-- ===== src/Trees/Insert.antt =====
-- `tree_insert` of src/storage/trees.c as a change of the map from domains.
mod Step
use native.Mathlib.Decide.{ℕ_discrete}
use baka_dns.Base.{
  ℕ, zero, suc, ◌*◌, ◌≤◌, ◌≡◌, refl, sym, ap, subst, ◌∙◌, true, false, ◌&&◌, Option, none, some,
  List, [], ◌∷◌, ◌++◌, leb, ◌==◌, if◌then◌else◌, ◌>>=◌, length, arith, Option-cases, Bool-cases,
  inl, inr, All, ==_ne, ==_refl,
}
use baka_dns.Message.{ResourceRecord, IntRet, ret, minus_one}
use baka_dns.Message.Labels.{Label, encode_labels}
use baka_dns.Trees.{
  TreeNode, no_child, child, Element, rr_hash, tree_node_update, tree_node_insert, tree_insert_loop,
  tree_insert, put_record, is_duplicate, only_record, empty_slots, create_tree_node, child_or_new,
  element_index,
}
use baka_dns.Trees.Find.{
  IsSubdomain, label_eq, label_eq→eq, label_eq_refl, view, IsTree, IsChild, tree_node_find-view,
}
use baka_dns.Trees.Find.Rename.{rename_if_same}
use baka_dns.Trees.Find.Nodes.{Changed, tree_node_update-Changed, tree_node_insert-Changed}
use baka_dns.Trees.Contents.{
  contents, path_eq, put_list, path_bytes, path_bytes-encode_labels, path_bytes-drop, next_length,
  path_bytes-next, view-IsChild, element_contents, contents-view, contents-root, contents-no_child,
  create_tree_node-IsTree, child_or_new-IsTree, contents-child_or_new,
}
use baka_dns.Trees.Insert.Step.{insert_step, Inserted, put_record-put_list, seen_through, unchanged}

module _ (index : ℕ) (rr : ResourceRecord) where
  -- The last label is there.
  found_last :
      (tn : TreeNode) (l : Label) (fuel : ℕ) (rest : List ℕ) (e : Element) (result : IntRet)
      (news : List ResourceRecord)
      → IsTree tn
      → IsSubdomain l
      → view tn l ≡ some e
      → put_list rr (e.slots index) ≡ some (result, news)
      → Inserted index rr tn
          (l ∷ [])
          result
          news
          (tree_insert_loop rr_hash index rr (suc fuel) tn (path_bytes (l ∷ []) rest))
  unfolding path_bytes next_length element_contents
  found_last tn l fuel rest e result news v h is put =
      let (e', done, below, slots) = put_record-put_list index rr e result news put in
      let keep : IsChild e'.below = rw below (view-IsChild tn l e v is) in
      let (tn', upd, ch) =
        tree_node_update-Changed tn l (path_bytes [] rest) (λ _. e') v h (λ _ _. keep) in
      record {
        tree = tn';
        runs =
            insert_step index rr l [] fuel tn rest v h
            ∙ rw is (
                rw (done, ◌>>=◌)
                  (rw (upd, ◌>>=◌)
                    (rw (rename_if_same result tn' l (path_bytes [] rest) ch.valid h, ◌>>=◌))));
        valid = ch.valid;
        seen =
            seen_through index rr tn tn' l [] (some e) (some e') news (rw is at ch) is
              (elim [ [] ↦ slots | m ∷ ms ↦ λ j. rw below ]);
      }

  -- A label above is there.
  found_above :
      (tn : TreeNode) (l m : Label) (ls : List Label) (fuel : ℕ) (rest : List ℕ) (e : Element)
      (result : IntRet) (news : List ResourceRecord)
      → IsTree tn
      → IsSubdomain l
      → IsSubdomain m
      → view tn l ≡ some e
      → Inserted index rr
          (child_or_new e.below)
          (m ∷ ls)
          result
          news
          (tree_insert_loop rr_hash index rr fuel (child_or_new e.below) (path_bytes (m ∷ ls) rest))
      → Inserted index rr tn
          (l ∷ m ∷ ls)
          result
          news
          (tree_insert_loop rr_hash index rr (suc fuel) tn (path_bytes (l ∷ m ∷ ls) rest))
  unfolding path_bytes next_length element_contents IsChild
  found_above tn l m ls fuel rest e result news v h k is inner =
      let f = λ (e : Element). record e { below = child inner.tree } in
      let (tn', upd, ch) =
        tree_node_update-Changed tn l (path_bytes (m ∷ ls) rest) f v h (λ _ _. inner.valid) in
      record {
        tree = tn';
        runs =
            insert_step index rr l (m ∷ ls) fuel tn rest v h
            ∙ rw (is, ==_ne (length m) 0 (omega (arith, k.inhabited)))
                (rw (inner.runs, ◌>>=◌) (rw (upd, ◌>>=◌)));
        valid = ch.valid;
        seen =
            seen_through index rr tn tn' l (m ∷ ls) (some e) (some (f e)) news (rw is at ch) is
              (elim [
                | [] ↦ λ j. refl
                | x ∷ xs ↦
                    λ j. rw (← contents-child_or_new (x ∷ xs) e.below j) (inner.seen (x ∷ xs) j)
              ]);
      }

  -- The last label is new: its element holds the record alone.
  new_last :
      (tn : TreeNode) (l : Label) (fuel : ℕ) (rest : List ℕ)
      → IsTree tn
      → IsSubdomain l
      → view tn l ≡ none
      → Inserted index rr tn
          (l ∷ [])
          (ret 1)
          (rr ∷ [])
          (tree_insert_loop rr_hash index rr (suc fuel) tn (path_bytes (l ∷ []) rest))
  unfolding path_bytes next_length element_contents IsChild
  new_last tn l fuel rest v h is =
      let (tn', ins, ch, grows) =
        tree_node_insert-Changed l (only_record index rr) no_child h tt tn (path_bytes [] rest) v
          is in
      record {
        tree = tn';
        runs = insert_step index rr l [] fuel tn rest v h ∙ rw is (rw (ins, ◌>>=◌));
        valid = ch.valid;
        seen =
            seen_through index rr tn tn' l [] none _ (rr ∷ []) ch is
              (elim [ [] ↦ λ j. refl | m ∷ ms ↦ λ j. contents-no_child (m ∷ ms) j ]);
      }

  -- A label above is new: its element is created with an empty child, and then it is there.
  new_above :
      (tn : TreeNode) (l m : Label) (ls : List Label) (fuel : ℕ) (rest : List ℕ) (result : IntRet)
      (news : List ResourceRecord)
      → IsTree tn
      → IsSubdomain l
      → IsSubdomain m
      → view tn l ≡ none
      → Inserted index rr create_tree_node
          (m ∷ ls)
          result
          news
          (tree_insert_loop rr_hash index rr fuel create_tree_node (path_bytes (m ∷ ls) rest))
      → Inserted index rr tn
          (l ∷ m ∷ ls)
          result
          news
          (tree_insert_loop rr_hash index rr (suc (suc fuel)) tn (path_bytes (l ∷ m ∷ ls) rest))
  unfolding path_bytes next_length element_contents IsChild
  new_above tn l m ls fuel rest result news v h k is inner =
      let made : Element = record { slots = empty_slots; below = child create_tree_node } in
      let (tn1, ins, ch, grows) =
        tree_node_insert-Changed l empty_slots (child create_tree_node) h create_tree_node-IsTree tn
          (path_bytes (m ∷ ls) rest) v is in
      let there : view tn1 l ≡ some made = ch.seen l ∙ rw (label_eq_refl l) in
      let out = found_above tn1 l m ls fuel rest made result news ch.valid h k there inner in
      record {
        tree = out.tree;
        runs =
            insert_step index rr l (m ∷ ls) (suc fuel) tn rest v h
            ∙ rw (is, ==_ne (length m) 0 (omega (arith, k.inhabited))) (rw (ins, ◌>>=◌) out.runs);
        valid = out.valid;
        seen = λ q j.
            out.seen q j
            ∙ ap
                (λ (c : List ResourceRecord).
                  if path_eq q (l ∷ m ∷ ls) && j == index then news else c)
                (unchanged index rr tn tn1 l ch is q j);
      }

  -- The last label is new, so the record is its first.
  alone :
      (tn : TreeNode) (l : Label) (fuel : ℕ) (rest : List ℕ) (result : IntRet)
      (news : List ResourceRecord)
      → IsTree tn
      → IsSubdomain l
      → view tn l ≡ none
      → put_list rr [] ≡ some (result, news)
      → Inserted index rr tn
          (l ∷ [])
          result
          news
          (tree_insert_loop rr_hash index rr (suc fuel) tn (path_bytes (l ∷ []) rest))
  unfolding put_list is_duplicate
  alone tn l fuel rest result news v h is put =
      let one : ◌≡◌ {A = Option (IntRet × List ResourceRecord)} (some (ret 1, rr ∷ []))
          (some (result, news)) =
        put in
      let same_result : ret 1 ≡ result = cc one in
      let same_news : rr ∷ [] ≡ news = cc one in
      subst
        (λ r.
          Inserted index rr tn (l ∷ []) r news
            (tree_insert_loop rr_hash index rr (suc fuel) tn (path_bytes (l ∷ []) rest)))
        same_result
        (subst
          (λ n.
            Inserted index rr tn (l ∷ []) (ret 1) n
              (tree_insert_loop rr_hash index rr (suc fuel) tn (path_bytes (l ∷ []) rest)))
          same_news (new_last tn l fuel rest v h is))

  tree_insert_loop-Inserted :
      (p : List Label) (l : Label) (tn : TreeNode) (fuel : ℕ) (rest : List ℕ) (result : IntRet)
      (news : List ResourceRecord)
      → IsTree tn
      → All IsSubdomain (l ∷ p)
      → 2 * length (l ∷ p) ≤ fuel
      → put_list rr (contents (l ∷ p) (child tn) index) ≡ some (result, news)
      → Inserted index rr tn
          (l ∷ p)
          result
          news
          (tree_insert_loop rr_hash index rr fuel tn (path_bytes (l ∷ p) rest))
  unfolding element_contents
  tree_insert_loop-Inserted p l tn zero rest result news v h enough put = absurd (omega arith)
  tree_insert_loop-Inserted p l tn (suc zero) rest result news v h enough put = absurd (omega arith)
  tree_insert_loop-Inserted [] l tn (suc (suc fuel)) rest result news v h enough put =
      let put' = rw (contents-view l [] tn index) at put in
      elim (Option-cases (view tn l)) [
        | inl is ↦ alone tn l (suc fuel) rest result news v h.0 is (rw is at put')
        | inr (e, is) ↦ found_last tn l (suc fuel) rest e result news v h.0 is (rw is at put')
      ]
  tree_insert_loop-Inserted (m ∷ p) l tn (suc (suc fuel)) rest result news v h enough put =
      let put' = rw (contents-view l (m ∷ p) tn index) at put in
      elim (Option-cases (view tn l)) [
        | inl is ↦ new_above tn l m p fuel rest result news v h.0 h.1.0 is (
            tree_insert_loop-Inserted p m create_tree_node fuel rest result news
              create_tree_node-IsTree h.1 (omega arith)
              (ap (put_list rr)
                  (contents-child_or_new (m ∷ p) no_child index ∙ contents-no_child (m ∷ p) index)
                ∙ (rw is at put')))
        | inr (e, is) ↦ found_above tn l m p (suc fuel) rest e result news v h.0 h.1.0 is (
            tree_insert_loop-Inserted p m (child_or_new e.below) (suc fuel) rest result news
              (child_or_new-IsTree e.below (view-IsChild tn l e v is)) h.1 (omega arith)
              (ap (put_list rr) (contents-child_or_new (m ∷ p) e.below index) ∙ (rw is at put')))
      ]

-- `tree_insert` into a valid tree, with two rounds of fuel for each label, gives a valid tree again.
-- Below the domain, under the index of the record's type, the records are then those that
-- `put_list` makes of the old ones: the record is appended with the result 1, and refused with -1
-- where there are four records or one with the same data. Every other domain, and every other index
-- of this domain, has the records it had.
pub tree_insert-put_list :
    (fuel : ℕ) (root : TreeNode) (l : Label) (p : List Label) (rest : List ℕ) (rr : ResourceRecord)
    (index : ℕ) (result : IntRet) (news : List ResourceRecord)
    → IsTree root
    → All IsSubdomain (l ∷ p)
    → 2 * length (l ∷ p) ≤ fuel
    → element_index rr.type ≡ some index
    → put_list rr (contents (l ∷ p) (child root) index) ≡ some (result, news)
    → (root' : TreeNode) × (tree_insert fuel rr_hash root (encode_labels (l ∷ p) ++ rest) rr
        ≡ some (result, root'))
      × IsTree root'
      × ((q : List Label) (j : ℕ)
          → contents q (child root') j
            ≡ (if path_eq q (l ∷ p) && j == index then news else contents q (child root) j))
unfolding tree_insert
tree_insert-put_list fuel root l p rest rr index result news v h enough i put =
    let done = tree_insert_loop-Inserted index rr p l root fuel rest result news v h enough put in
    (
      done.tree,
      rw (i, path_bytes-encode_labels (l ∷ p) rest, tree_insert) done.runs,
      done.valid,
      done.seen,
    )
