-- ===== src/Tests/Trees.antt =====
-- The tree of src/storage/trees.c and the database of src/storage/database.c: a record for ab.c is put into
-- an empty tree and looked up again.
use mathlib.Core.List.{reverse}
use baka_dns.Base.{
  ℕ, ◌≡◌, refl, ◌&&◌, none, some, List, [], ◌∷◌, ◌++◌, arith, All, if◌then◌else◌, ◌==◌,
}
use baka_dns.Message.{MessageQuestion, ResourceRecord, ret}
use baka_dns.Message.Labels.{Label, label_bytes, encode_labels}
use baka_dns.Trees.{
  TreeNode, no_child, child, rr_hash, only_record, create_tree_node, element_index, is_duplicate,
  tree_node_find, tree_node_insert, tree_insert, tree_search,
}
use baka_dns.Trees.Find.{IsSubdomain, IsTree, IsChild, view, find_label, tree_node_find-view}
use baka_dns.Trees.Find.Nodes.{Changed, Grows, tree_node_insert-Changed}
use baka_dns.Trees.Contents.{contents, path_eq, put_list, create_tree_node-IsTree}
use baka_dns.Trees.Insert.{tree_insert-put_list}
use baka_dns.Trees.Search.{IsStored, stored, tree_search-stored}
use baka_dns.Database.{insert_database, select_database}
use baka_dns.Database.Select.{IsDomain, select_database-insert_database}

abbrev domain : List Label
domain = (97 ∷ 98 ∷ []) ∷ (99 ∷ []) ∷ []

domain-IsDomain : IsDomain domain
unfolding label_bytes
domain-IsDomain = record {
  subdomains = (
    record { nonzero = omega arith; inhabited = omega arith; short = omega arith },
    (record { nonzero = omega arith; inhabited = omega arith; short = omega arith }, tt),
  );
  plain = omega arith;
  short = omega arith;
}

c-IsSubdomain : IsSubdomain (99 ∷ [])
c-IsSubdomain = record { nonzero = omega arith; inhabited = omega arith; short = omega arith }

abbrev address : ResourceRecord
address = record {
  name = 2 ∷ 97 ∷ 98 ∷ 1 ∷ 99 ∷ 0 ∷ [];
  type = 1;
  class = 1;
  ttl = 0;
  rdlength = 4;
  rdata = some (10 ∷ 0 ∷ 0 ∷ 1 ∷ []);
}

address-IsStored : IsStored address
address-IsStored = (
  record {
    labels = 2 ∷ 97 ∷ 98 ∷ 1 ∷ 99 ∷ [];
    terminated = refl;
    plain = omega arith;
    short = omega arith;
  },
  (refl, omega arith),
)

name_of_address : address.name ≡ encode_labels domain
unfolding encode_labels label_bytes
name_of_address = refl

abbrev question : MessageQuestion
question = record { qname = address.name; qtype = 1; qclass = 1 }

index_of_address : element_index address.type ≡ some 0
unfolding element_index
index_of_address = refl

nothing : contents (reverse domain) (child create_tree_node) 0 ≡ []
unfolding contents create_tree_node view find_label
nothing = refl

put_first :
    put_list address (contents (reverse domain) (child create_tree_node) 0)
    ≡ some (ret 1, address ∷ [])
unfolding contents create_tree_node view find_label put_list is_duplicate
put_first = refl

absent : view create_tree_node (99 ∷ []) ≡ none
unfolding view create_tree_node find_label
absent = refl

stored_nothing : stored create_tree_node (reverse domain) 1 ≡ []
unfolding stored element_index contents create_tree_node view find_label
stored_nothing = refl

tree_node_find-view_example :
    tree_node_find create_tree_node (1 ∷ 99 ∷ 0 ∷ []) ≡ some (view create_tree_node (99 ∷ []))
tree_node_find-view_example =
    tree_node_find-view create_tree_node (99 ∷ []) (0 ∷ []) create_tree_node-IsTree c-IsSubdomain

tree_node_insert-Changed_example :
    (tn' : TreeNode) × (tree_node_insert rr_hash create_tree_node
        (1 ∷ 99 ∷ 0 ∷ [])
        (only_record 0 address)
        no_child
      ≡ some tn')
    × Changed create_tree_node
        (99 ∷ [])
        (some (record { slots = only_record 0 address; below = no_child }))
        tn'
    × Grows create_tree_node tn'
unfolding IsChild
tree_node_insert-Changed_example =
    tree_node_insert-Changed (99 ∷ []) (only_record 0 address) no_child c-IsSubdomain tt
      create_tree_node (0 ∷ []) create_tree_node-IsTree absent

tree_insert-put_list_example :
    (root' : TreeNode) × (tree_insert 4 rr_hash create_tree_node
        (encode_labels (reverse domain) ++ [])
        address
      ≡ some (ret 1, root'))
    × IsTree root'
    × ((q : List Label) (j : ℕ)
        → contents q (child root') j ≡ (
            if path_eq q (reverse domain) && j == 0
            then address ∷ []
            else contents q (child create_tree_node) j))
tree_insert-put_list_example =
    tree_insert-put_list 4 create_tree_node (99 ∷ []) ((97 ∷ 98 ∷ []) ∷ []) [] address 0 (ret 1)
      (address ∷ []) create_tree_node-IsTree (c-IsSubdomain, (domain-IsDomain.subdomains.0, tt))
      (omega arith) index_of_address put_first

tree_search-stored_example :
    tree_search 4 create_tree_node (encode_labels (reverse domain) ++ []) 1
    ≡ some (stored create_tree_node (reverse domain) 1)
tree_search-stored_example =
    tree_search-stored 4 create_tree_node (reverse domain) [] 1 create_tree_node-IsTree
      (c-IsSubdomain, (domain-IsDomain.subdomains.0, tt)) (omega arith) (rw stored_nothing tt)

select_database-insert_database_example :
    (tree' : TreeNode) × (insert_database create_tree_node address ≡ some (ret 1, tree'))
    × IsTree tree'
    × ((q : MessageQuestion)
        → q.qname ≡ encode_labels domain
        → q.qtype ≡ address.type
        → select_database tree' q ≡ some (address ∷ []))
    × ((q : MessageQuestion) (qs : List Label)
        → IsDomain qs
        → q.qname ≡ encode_labels qs
        → ¬ ((qs ≡ domain) × (q.qtype ≡ address.type))
        → All IsStored (stored create_tree_node (reverse qs) q.qtype)
        → select_database tree' q ≡ select_database create_tree_node q)
select_database-insert_database_example =
    select_database-insert_database create_tree_node address domain 0 (ret 1) (address ∷ [])
      create_tree_node-IsTree domain-IsDomain (omega arith) name_of_address index_of_address
      put_first (address-IsStored, tt)
