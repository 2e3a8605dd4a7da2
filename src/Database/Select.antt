-- ===== src/Database/Select.antt =====
-- `select_database` and `insert_database` of src/storage/database.c on the map from domains.
use mathlib.Core.List.{reverse, reverse-reverse}
use native.Mathlib.Decide.{ℕ_discrete}
use baka_dns.Base.{
  ℕ, ◌*◌, ◌≤◌, ◌<◌, ◌≡◌, refl, sym, ap, ap₂, subst, ◌∙◌, true, ◌&&◌, Option, some, List, [], ◌∷◌,
  ◌++◌, ◌==◌, if◌then◌else◌, ◌>>=◌, zeroed, length, length-append, length-reverse, length-zeroed,
  drop, append-nil, All, All-reverse, arith, Bool-cases, Option-cases, inl, inr, ==_refl, ==_ne,
  ◌⊎◌,
}
use baka_dns.Message.{MessageQuestion, ResourceRecord, IntRet}
use baka_dns.Message.Labels.{Label, label_bytes, encode_labels, IsLabel}
use baka_dns.Message.Name.Complete.{PlainByte}
use baka_dns.Message.Reverse.{domain_rev}
use baka_dns.Message.Reverse.Correct.{domain_rev-encode_labels}
use baka_dns.Message.Wire.{IsName}
use baka_dns.Message.Wire.Write.{domain_len-IsName}
use baka_dns.Trees.{TreeNode, child, rr_hash, tree_insert, tree_search, element_index}
use baka_dns.Trees.Find.{IsSubdomain, IsTree, label_eq, label_eq→eq, label_eq_refl}
use baka_dns.Trees.Contents.{contents, path_eq, put_list}
use baka_dns.Trees.Search.{IsStored, stored, tree_search-stored}
use baka_dns.Trees.Insert.{tree_insert-put_list}
use baka_dns.Database.{rounds, insert_database, select_database}

-- The labels of a name, from the leftmost one on, that the database can hold.
pub record IsDomain (ls : List Label) : Type 0 where
  pub subdomains : All IsSubdomain ls
  pub plain : All PlainByte (label_bytes ls)
  pub short : length (label_bytes ls) < 255

pub encode_labels-IsName : (ls : List Label) → IsDomain ls → IsName (encode_labels ls)
unfolding encode_labels
encode_labels-IsName ls d = record {
  labels = label_bytes ls;
  terminated = refl;
  plain = d.plain;
  short = d.short;
}

pub length-label_bytes : (ls : List Label) → length ls ≤ length (label_bytes ls)
unfolding label_bytes
length-label_bytes [] = omega arith
length-label_bytes (l ∷ ls) = omega (arith, length-label_bytes ls, length-append l (label_bytes ls))

IsSubdomain-IsLabel : (ls : List Label) → All IsSubdomain ls → All IsLabel ls
IsSubdomain-IsLabel [] h = tt
IsSubdomain-IsLabel (l ∷ ls) h =
    ((h.0.inhabited, omega (arith, h.0.short)), IsSubdomain-IsLabel ls h.1)

-- The reversed name, in its buffer.
revbuf : List Label → List ℕ
revbuf ls = encode_labels (reverse ls) ++ drop (length (encode_labels ls)) (zeroed 512)

reversed :
    (ls : List Label)
    → IsDomain ls
    → domain_rev rounds (zeroed 512) (encode_labels ls) ≡ some (revbuf ls)
unfolding revbuf encode_labels
reversed ls d =
    let n = length-append (label_bytes ls) (0 ∷ []) in
    ap (domain_rev rounds (zeroed 512)) (sym (append-nil (encode_labels ls)))
    ∙ domain_rev-encode_labels rounds ls [] (zeroed 512) (IsSubdomain-IsLabel ls d.subdomains)
        (omega (arith, length-label_bytes ls, d.short)) (omega (arith, d.short))
        (omega (arith, n, length-zeroed 512, d.short))

rounds_enough : (ls : List Label) → IsDomain ls → 2 * length (reverse ls) ≤ rounds
rounds_enough ls d = omega (arith, length-label_bytes ls, length-reverse ls, d.short)

-- `select_database` with a name that the database can hold gives exactly the records that the tree
-- holds for its labels from the top down and the type of the question.
pub select_database-stored :
    (tree : TreeNode) (q : MessageQuestion) (ls : List Label)
    → IsTree tree
    → IsDomain ls
    → q.qname ≡ encode_labels ls
    → All IsStored (stored tree (reverse ls) q.qtype)
    → select_database tree q ≡ some (stored tree (reverse ls) q.qtype)
unfolding select_database revbuf
select_database-stored tree q ls v d e c =
    rw (e, domain_len-IsName (encode_labels ls) (encode_labels-IsName ls d), ◌>>=◌)
      (ap (λ (m : Option (List ℕ)). m >>= λ b. tree_search rounds tree b q.qtype)
          (ap (domain_rev rounds (zeroed 512)) e ∙ reversed ls d)
        ∙ tree_search-stored rounds tree (reverse ls) _ q.qtype v
            (All-reverse IsSubdomain ls d.subdomains) (omega (arith, rounds_enough ls d)) c)

pub path_eq→eq : (p q : List Label) → path_eq p q ≡ true → p ≡ q
path_eq→eq [] [] h = refl
path_eq→eq [] (m ∷ q) h = ground arith
path_eq→eq (l ∷ p) [] h = ground arith
path_eq→eq (l ∷ p) (m ∷ q) h = elim (Bool-cases (label_eq l m)) [
  | inl t ↦ ap₂ ◌∷◌ (label_eq→eq l m t) (path_eq→eq p q (rw t at h))
  | inr g ↦ absurd (ground (arith, rw g at h))
]

pub path_eq_refl : (p : List Label) → path_eq p p ≡ true
path_eq_refl [] = refl
path_eq_refl (l ∷ p) = rw (label_eq_refl l) (path_eq_refl p)

pub element_index_injective :
    (s t index : ℕ) → element_index s ≡ some index → element_index t ≡ some index → s ≡ t
unfolding element_index
element_index_injective s t index h k = ground arith

pub reverse_injective : {A : Type 0} → (xs ys : List A) → reverse xs ≡ reverse ys → xs ≡ ys
reverse_injective xs ys e = sym (reverse-reverse xs) ∙ ap reverse e ∙ reverse-reverse ys

-- The tree has the records `news` for the domain `p` and the type, and all else as before.
pub record Updated (tree tree' : TreeNode) (p : List Label) (index : ℕ) (news : List ResourceRecord)
    : Type 0 where
  pub valid : IsTree tree'
  pub seen :
      (q : List Label) (j : ℕ)
      → contents q (child tree') j
        ≡ (if path_eq q p && j == index then news else contents q (child tree) j)

pub Updated-same :
    (tree tree' : TreeNode) (p : List Label) (type index : ℕ) (news : List ResourceRecord)
    → Updated tree tree' p index news
    → element_index type ≡ some index
    → stored tree' p type ≡ news
unfolding stored
Updated-same tree tree' p type index news u i =
    rw (i, stored) (u.seen p index ∙ rw (path_eq_refl p, ==_refl index))

Updated-other :
    (tree tree' : TreeNode) (p q : List Label) (s t index : ℕ) (news : List ResourceRecord)
    → Updated tree tree' p index news
    → element_index s ≡ some index
    → ¬ ((q ≡ p) × (t ≡ s))
    → stored tree' q t ≡ stored tree q t
unfolding stored
Updated-other tree tree' p q s t index news u i differ = elim (Option-cases (element_index t)) [
  | inl e ↦ rw (e, stored)
  | inr (j, e) ↦ rw (e, stored) (u.seen q j ∙ elsewhere j e)
]
  where
    elsewhere :
        (j : ℕ)
        → element_index t ≡ some j
        → (if path_eq q p && j == index then news else contents q (child tree) j)
          ≡ contents q (child tree) j
    elsewhere j e = elim (Bool-cases (path_eq q p)) [
      | inr g ↦ rw g
      | inl same ↦ elim (ℕ_discrete j index) [
        | no f ↦ rw (same, ==_ne j index f)
        | yes k ↦
            absurd (differ (path_eq→eq q p same, element_index_injective t s index (rw (← k) e) i))
      ]
    ]

pub insert_database-Updated :
    (tree : TreeNode) (rr : ResourceRecord) (ls : List Label) (index : ℕ) (result : IntRet)
    (news : List ResourceRecord)
    → IsTree tree
    → IsDomain ls
    → 0 < length ls
    → rr.name ≡ encode_labels ls
    → element_index rr.type ≡ some index
    → put_list rr (contents (reverse ls) (child tree) index) ≡ some (result, news)
    → (tree' : TreeNode) × (insert_database tree rr ≡ some (result, tree'))
      × Updated tree tree' (reverse ls) index news
unfolding insert_database revbuf
insert_database-Updated tree rr ls index result news v d some_label e i put =
    elim (split (reverse ls)) [
      | inl empty ↦ absurd (omega (arith, length-reverse ls, ap length empty))
      | inr (l, p, cons) ↦
          let (tree', runs, valid, seen) =
            tree_insert-put_list rounds tree l p (drop (length (encode_labels ls)) (zeroed 512)) rr
              index result news v
              (subst (All IsSubdomain) cons (All-reverse IsSubdomain ls d.subdomains))
              (subst (λ r. 2 * length r ≤ rounds) cons (rounds_enough ls d)) i (rw cons at put) in
          (
            tree',
            rw (e, domain_len-IsName (encode_labels ls) (encode_labels-IsName ls d), ◌>>=◌)
                (ap (λ (m : Option (List ℕ)). m >>= λ b. tree_insert rounds rr_hash tree b rr)
                    (ap (domain_rev rounds (zeroed 512)) e ∙ reversed ls d)
                  ∙ (rw cons runs)),
            record { valid = valid; seen = rw cons seen },
          )
    ]
  where
    split : (xs : List Label) → (xs ≡ []) ⊎ ((l : Label) × (p : List Label) × (xs ≡ l ∷ p))
    split [] = inl refl
    split (l ∷ p) = inr (l, p, refl)

-- `insert_database` of a record of a supported type, whose name has at least one label and the
-- database can hold, gives a valid tree. With that tree, `select_database` for the same name and type
-- gives what `put_list` makes of the old records: the new record behind them with the result 1, or
-- the old ones with the result -1 where there are four or one has the same data. For any other name
-- or type it gives what it gave before.
pub select_database-insert_database :
    (tree : TreeNode) (rr : ResourceRecord) (ls : List Label) (index : ℕ) (result : IntRet)
    (news : List ResourceRecord)
    → IsTree tree
    → IsDomain ls
    → 0 < length ls
    → rr.name ≡ encode_labels ls
    → element_index rr.type ≡ some index
    → put_list rr (contents (reverse ls) (child tree) index) ≡ some (result, news)
    → All IsStored news
    → (tree' : TreeNode) × (insert_database tree rr ≡ some (result, tree'))
      × IsTree tree'
      × ((q : MessageQuestion)
          → q.qname ≡ encode_labels ls
          → q.qtype ≡ rr.type
          → select_database tree' q ≡ some news)
      × ((q : MessageQuestion) (qs : List Label)
          → IsDomain qs
          → q.qname ≡ encode_labels qs
          → ¬ ((qs ≡ ls) × (q.qtype ≡ rr.type))
          → All IsStored (stored tree (reverse qs) q.qtype)
          → select_database tree' q ≡ select_database tree q)
select_database-insert_database tree rr ls index result news v d some_label e i put c =
    let (tree', runs, u) =
      insert_database-Updated tree rr ls index result news v d some_label e i put in
    (
      tree',
      runs,
      u.valid,
      λ q n t.
          let i' : element_index q.qtype ≡ some index = rw t i in
          let same = Updated-same tree tree' (reverse ls) q.qtype index news u i' in
          select_database-stored tree' q ls u.valid d n (rw same c) ∙ ap some same,
      λ q qs k n differ old.
          let same =
            Updated-other tree tree' (reverse ls) (reverse qs) rr.type q.qtype index news u i
              (λ both. differ (reverse_injective qs ls both.0, both.1)) in
          select_database-stored tree' q qs u.valid k n (rw same old)
          ∙ ap some same
          ∙ sym (select_database-stored tree q qs v k n old),
    )
