-- ===== src/Database/Load/File.antt =====
-- The relay file as a whole: `init_database` of src/storage/database.c on lines with IPv4 addresses, and
-- what `select_database` gives then.
use mathlib.Core.List.{reverse}
use native.Mathlib.Decide.{ℕ_discrete}
use baka_dns.Base.{
  ℕ, ◌<◌, ◌≡◌, ◌≢◌, refl, sym, ap, ◌∙◌, true, none, some, List, [], ◌∷◌, ◌++◌, map, All, arith,
  length, zeroed, length-zeroed, ◌>>=◌, Bool-cases, Option-cases, subst, inl, inr, if◌then◌else◌,
  ==_ne, ◌==◌,
}
use baka_dns.Message.{MessageQuestion, ResourceRecord, ret, rrtype_a, domain_buf_len}
use baka_dns.Message.Labels.{Label, encode_labels}
use baka_dns.Trees.{TreeNode, child, no_child, create_tree_node, element_index}
use baka_dns.Trees.Find.{IsTree}
use baka_dns.Trees.Contents.{contents, path_eq, create_tree_node-IsTree, contents-child_or_new}
use baka_dns.Trees.Search.{IsStored, stored}
use baka_dns.Database.{tolower, select_database}
use baka_dns.Database.Format.{IsToken}
use baka_dns.Database.Select.{
  element_index_injective, IsDomain, encode_labels-IsName, path_eq→eq, path_eq_refl,
  reverse_injective, Updated, insert_database-Updated, select_database-stored,
}
use baka_dns.Conf.{InetPton}
use baka_dns.Database.Load.{Loading, load_lines, init_database}
use baka_dns.Database.Load.Line.{IsLine, joined, line_of, line_record, load_line-line_of}
use baka_dns.Database.Load.Addresses.{add_address, add_address-All, put_list-add_address}

-- A line of the file: the text of the address, its four bytes, and the labels of the name.
pub record RelayLine : Type 0 where
  pub ip : List ℕ
  pub address : List ℕ
  pub label : Label
  pub labels : List Label

abbrev pub text_of : RelayLine → List ℕ
text_of r = line_of r.ip (joined r.label r.labels)

-- The labels in lower case.
abbrev pub name_of : RelayLine → List Label
name_of r = map (map tolower) (r.label ∷ r.labels)

pub record IsRelayLine (pton : InetPton) (r : RelayLine) : Type 0 where
  pub line : IsLine r.ip (joined r.label r.labels)
  pub tokens : All IsToken (r.label ∷ r.labels)
  pub domain : IsDomain (name_of r)
  pub short : length (encode_labels (name_of r)) < 255
  pub converts : pton.inet (r.ip ++ (0 ∷ [])) ≡ some r.address
  pub four : length r.address ≡ 4

-- The addresses of a name, behind those that it had.
abbrev pub addresses : List RelayLine → List Label → List (List ℕ) → List (List ℕ)
addresses [] ls olds = olds
addresses (r ∷ rs) ls olds =
    addresses rs ls (if path_eq (name_of r) ls then add_address r.address olds else olds)

path_eq-reverse : (n ls : List Label) → path_eq (reverse ls) (reverse n) ≡ path_eq n ls
path_eq-reverse n ls = elim (Bool-cases (path_eq n ls)) [
  | inl t ↦ rw (t, path_eq→eq n ls t, path_eq_refl (reverse ls)) refl
  | inr f ↦ elim (Bool-cases (path_eq (reverse ls) (reverse n))) [
    | inr g ↦ g ∙ sym f
    | inl t ↦
        let e : n ≡ ls = sym (reverse_injective ls n (path_eq→eq (reverse ls) (reverse n) t)) in
        let same : path_eq n ls ≡ true = rw e (path_eq_refl ls) in absurd (ground arith)
  ]
]

-- The tree holds the addresses of each name and nothing else.
record HoldsAddresses (tree : TreeNode) (held : List Label → List (List ℕ)) : Type 0 where
  valid : IsTree tree
  four : (ls : List Label) → All (λ a. length a ≡ 4) (held ls)
  seen : (ls : List Label) → contents (reverse ls) (child tree) 0 ≡ map (line_record ls) (held ls)
  others : (ls : List Label) (j : ℕ) → j ≢ 0 → contents (reverse ls) (child tree) j ≡ []

abbrev after_line : RelayLine → (List Label → List (List ℕ)) → List Label → List (List ℕ)
after_line r held ls = if path_eq (name_of r) ls then add_address r.address (held ls) else held ls

Updated-HoldsAddresses :
    (pton : InetPton) (r : RelayLine) (tree tree' : TreeNode) (held : List Label → List (List ℕ))
    → IsRelayLine pton r
    → HoldsAddresses tree held
    → Updated tree tree'
        (reverse (name_of r))
        0
        (map (line_record (name_of r)) (add_address r.address (held (name_of r))))
    → HoldsAddresses tree' (after_line r held)
Updated-HoldsAddresses pton r tree tree' held k h u = record {
  valid = u.valid;
  four = λ ls. elim (Bool-cases (path_eq (name_of r) ls)) [
    | inl t ↦ rw t (add_address-All ls r.address k.four (held ls) (h.four ls))
    | inr f ↦ rw f (h.four ls)
  ];
  seen = λ ls. u.seen (reverse ls) 0 ∙ elim (Bool-cases (path_eq (name_of r) ls)) [
    | inl t ↦ rw (path_eq-reverse (name_of r) ls, t) (rw (path_eq→eq (name_of r) ls t) refl)
    | inr f ↦ rw (path_eq-reverse (name_of r) ls, f) (h.seen ls)
  ];
  others = λ ls j nz.
      u.seen (reverse ls) j
      ∙ rw (==_ne j 0 nz) (elim (Bool-cases (path_eq (reverse ls) (reverse (name_of r)))) [
        | inl t ↦ rw t (h.others ls j nz)
        | inr f ↦ rw f (h.others ls j nz)
      ]);
}

index_of_a : element_index rrtype_a ≡ some 0
unfolding element_index
index_of_a = refl

load_lines-HoldsAddresses :
    (pton : InetPton) (rs : List RelayLine) (s : Loading) (held : List Label → List (List ℕ))
    → All (IsRelayLine pton) rs
    → HoldsAddresses s.tree held
    → length s.formatd ≡ 512
    → (s' : Loading) × (load_lines pton (map text_of rs) s ≡ some (some s'))
      × HoldsAddresses s'.tree (λ ls. addresses rs ls (held ls))
unfolding load_lines
load_lines-HoldsAddresses pton [] s held k h n = (s, refl, h)
load_lines-HoldsAddresses pton (r ∷ rs) s held k h n =
    let name = name_of r in
    let (result, put) = put_list-add_address name r.address k.0.four (held name) (h.four name) in
    let (tree', inserts, u) =
      insert_database-Updated s.tree (line_record name r.address) name 0 result
        (map (line_record name) (add_address r.address (held name))) h.valid k.0.domain
        (omega arith) refl index_of_a (rw (h.seen name) put) in
    let (s1, loads, is_tree, n1) =
      load_line-line_of pton r.ip r.address r.label r.labels s result tree' k.0.line k.0.tokens
        k.0.domain k.0.short n k.0.converts k.0.four inserts in
    let h1 = Updated-HoldsAddresses pton r s.tree tree' held k.0 h u in
    let (s', all, h') =
      load_lines-HoldsAddresses pton rs s1 (after_line r held) k.1
        (subst (λ t. HoldsAddresses t (after_line r held)) (sym is_tree) h1) n1 in
    (s', rw (loads, ◌>>=◌) all, h')

contents-create_tree_node : (p : List Label) (j : ℕ) → contents p (child create_tree_node) j ≡ []
unfolding contents
contents-create_tree_node p j = contents-child_or_new p no_child j

create_tree_node-HoldsAddresses : HoldsAddresses create_tree_node (λ ls. [])
create_tree_node-HoldsAddresses = record {
  valid = create_tree_node-IsTree;
  four = λ ls. tt;
  seen = λ ls. contents-create_tree_node (reverse ls) 0;
  others = λ ls j nz. contents-create_tree_node (reverse ls) j;
}

line_record-IsStored :
    (ls : List Label) (held : List (List ℕ))
    → IsDomain ls
    → All (λ a. length a ≡ 4) held
    → All IsStored (map (line_record ls) held)
line_record-IsStored ls [] d h = tt
line_record-IsStored ls (a ∷ held) d h =
    ((encode_labels-IsName ls d, (h.0, omega arith)), line_record-IsStored ls held d h.1)

-- The records of a question.
abbrev pub answers_of : List RelayLine → List Label → ℕ → List ResourceRecord
answers_of rs ls type = if type == rrtype_a then map (line_record ls) (addresses rs ls []) else []

answers_of-IsStored :
    (rs : List RelayLine) (ls : List Label) (type : ℕ)
    → IsDomain ls
    → All (λ a. length a ≡ 4) (addresses rs ls [])
    → All IsStored (answers_of rs ls type)
answers_of-IsStored rs ls type d h = elim (Bool-cases (type == rrtype_a)) [
  | inl t ↦ rw t (line_record-IsStored ls (addresses rs ls []) d h)
  | inr f ↦ rw f tt
]

stored-answers :
    (tree : TreeNode) (held : List Label → List (List ℕ)) (ls : List Label) (type : ℕ)
    → HoldsAddresses tree held
    → stored tree (reverse ls) type
      ≡ (if type == rrtype_a then map (line_record ls) (held ls) else [])
unfolding stored
stored-answers tree held ls type h = elim (ℕ_discrete type rrtype_a) [
  | yes a ↦ rw (a, stored) (rw index_of_a (h.seen ls))
  | no other ↦ elim (Option-cases (element_index type)) [
    | inl e ↦ rw (e, ==_ne type rrtype_a other, stored) refl
    | inr (j, e) ↦
        rw (e, ==_ne type rrtype_a other, stored)
          (h.others ls j
            λ z. other (element_index_injective type rrtype_a 0 (rw z at e) index_of_a))
  ]
]

-- `init_database` of a file whose lines each have an IPv4 address and a name in any case makes a tree
-- with which `select_database`, for any name that the database can hold, gives the A records of the
-- addresses that stand before this name in the file: in their order, each once, and the first four. For
-- any other type it gives nothing. The parts of the names are joined by single dots, and the encoded
-- names have less than 255 bytes.
pub init_database-addresses :
    (pton : InetPton) (rs : List RelayLine) (q : MessageQuestion) (ls : List Label)
    → All (IsRelayLine pton) rs
    → IsDomain ls
    → q.qname ≡ encode_labels ls
    → (tree : TreeNode) × (init_database pton (some (map text_of rs)) ≡ some (some (ret 1, tree)))
      × IsTree tree
      × (select_database tree q ≡ some (answers_of rs ls q.qtype))
unfolding init_database
init_database-addresses pton rs q ls k d name =
    let start : Loading = record {
      ipbuf = none;
      domainbuf = none;
      formatd = zeroed domain_buf_len;
      tree = create_tree_node;
    } in
    let (s, loads, h) =
      load_lines-HoldsAddresses pton rs start (λ ns. []) k create_tree_node-HoldsAddresses
        (length-zeroed domain_buf_len) in
    let here = stored-answers s.tree (λ ns. addresses rs ns []) ls q.qtype h in
    (
      s.tree,
      rw (loads, ◌>>=◌) refl,
      h.valid,
      select_database-stored s.tree q ls h.valid d name
            (rw here (answers_of-IsStored rs ls q.qtype d (h.four ls)))
          ∙ ap some here,
    )
