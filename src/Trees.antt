-- ===== src/Trees.antt =====
-- The hash bucket tree of src/storage/trees.h and src/storage/trees.c. A node owns its chain of elements and
-- each element its child, so the tree is a data type, and a write through a pointer to an element is
-- an update of the tree. A pointer into a domain is the list of the bytes from it on.
pub mod Find
pub mod Contents
pub mod Insert
pub mod Search
use baka_dns.Base.{
  ℕ, zero, suc, ◌+◌, ◌-◌, ◌*◌, ◌%◌, ◌^◌, Bool, true, false, ◌&&◌, Option, none, some, List, [], ◌∷◌,
  ◌++◌, ltb, leb, ◌==◌, if◌then◌else◌, ◌>>=◌, get_elem?, zeroed, read_bytes, write_bytes, length,
  drop,
}
use baka_dns.Message.{ResourceRecord, IntRet, ret, minus_one, rrtype_a, rrtype_cname, rrtype_aaaa}
use baka_dns.Message.Name.{strncmp_eq}
use baka_dns.Message.Record.{block_of, rr_copy}

abbrev pub hash_bucket_size : ℕ
hash_bucket_size = 1024

abbrev pub hash_switch_threshold : ℕ
hash_switch_threshold = 32

abbrev pub subdomain_max : ℕ
subdomain_max = 50

abbrev pub rr_cnt_max : ℕ
rr_cnt_max = 4

-- `data` with `data_cnt`: the records under each index RR_ARR_A, RR_ARR_CNAME and RR_ARR_AAAA.
abbrev pub Slots : Type 0
Slots = ℕ → List ResourceRecord

-- `struct tree_node` with its size, `struct linked_node` with the fields of its element, and the
-- child pointer. A bucket array is the function from its indices to the chains.
mutual
  pub data TreeNode : Type 0 where
    linked_list : ℕ → Chain → TreeNode
    hash_bucket : ℕ → (ℕ → Chain) → TreeNode

  pub data Chain : Type 0 where
    end_of_chain : Chain
    linked_node : List ℕ → Slots → Child → Chain → Chain

  pub data Child : Type 0 where
    no_child : Child
    child : TreeNode → Child

-- `struct linked_node` as its finder sees it.
pub record Element : Type 0 where
  pub slots : Slots
  pub below : Child

abbrev pub empty_slots : Slots
empty_slots i = []

unfoldable pub create_tree_node : TreeNode
create_tree_node = linked_list 0 end_of_chain

-- The loop of `rr_hash` in a `uint32_t`.
unfoldable pub rr_hash_loop : ℕ → List ℕ → ℕ → Option ℕ
rr_hash_loop zero ptr hsh = some hsh
rr_hash_loop (suc n) [] hsh = none
rr_hash_loop (suc n) (b ∷ ptr) hsh = rr_hash_loop n ptr ((hsh * 131 + b) % 2 ^ 32)

-- The length byte and all characters of the label but the last.
unfoldable pub rr_hash : List ℕ → Option ℕ
rr_hash [] = none
rr_hash (n ∷ ptr) = rr_hash_loop n (n ∷ ptr) 0

-- `strncmp(target, domain, (*target) + 1) == 0`
unfoldable pub same_label : List ℕ → List ℕ → Option Bool
same_label [] domain = none
same_label (n ∷ target) domain = strncmp_eq (n + 1) (n ∷ target) domain

-- The walk of `_ll_find` along a chain.
unfoldable pub ll_find : Chain → List ℕ → Option (Option Element)
ll_find end_of_chain target = some none
ll_find (linked_node domain slots below next) target = do
  same ← same_label target domain
  let rest = ll_find next target
  if same then some (some (record { slots = slots; below = below })) else rest

unfoldable pub hash_ll_find : (ℕ → Chain) → List ℕ → Option (Option Element)
hash_ll_find bucket target = do h ← rr_hash target; ll_find (bucket (h % hash_bucket_size)) target

unfoldable pub tree_node_find : TreeNode → List ℕ → Option (Option Element)
tree_node_find (linked_list size chain) target = ll_find chain target
tree_node_find (hash_bucket size bucket) target = hash_ll_find bucket target

-- A write through the pointer that the find function returned: the model walks to that node again.
unfoldable pub ll_update : Chain → List ℕ → (Element → Element) → Option Chain
ll_update end_of_chain target f = some end_of_chain
ll_update (linked_node domain slots below next) target f = do
  same ← same_label target domain
  let e = f (record { slots = slots; below = below })
  let rest = ll_update next target f >>= λ next'. some (linked_node domain slots below next')
  if same then some (linked_node domain e.slots e.below next) else rest

abbrev pub bucket_set : (ℕ → Chain) → ℕ → Chain → ℕ → Chain
bucket_set bucket i chain j = if j == i then chain else bucket j

unfoldable pub tree_node_update : TreeNode → List ℕ → (Element → Element) → Option TreeNode
tree_node_update (linked_list size chain) target f = do
  chain' ← ll_update chain target f
  some (linked_list size chain')
tree_node_update (hash_bucket size bucket) target f = do
  h ← rr_hash target
  chain ← ll_update (bucket (h % hash_bucket_size)) target f
  some (hash_bucket size (bucket_set bucket (h % hash_bucket_size) chain))

-- `memcpy(ln->element.domain, rev_domain, (*rev_domain) + 1)` on the element that was found.
unfoldable pub write_domain : List ℕ → List ℕ → Option (List ℕ)
write_domain [] domain = none
write_domain (n ∷ rev_domain) domain = do
  label ← read_bytes (n ∷ rev_domain) 0 (n + 1)
  write_bytes domain 0 label

unfoldable pub ll_rename : Chain → List ℕ → Option Chain
ll_rename end_of_chain target = some end_of_chain
ll_rename (linked_node domain slots below next) target = do
  same ← same_label target domain
  elim same [
    | true ↦ do domain' ← write_domain target domain; some (linked_node domain' slots below next)
    | false ↦ do next' ← ll_rename next target; some (linked_node domain slots below next')
  ]

unfoldable pub tree_node_rename : TreeNode → List ℕ → Option TreeNode
tree_node_rename (linked_list size chain) target = do
  chain' ← ll_rename chain target
  some (linked_list size chain')
tree_node_rename (hash_bucket size bucket) target = do
  h ← rr_hash target
  chain ← ll_rename (bucket (h % hash_bucket_size)) target
  some (hash_bucket size (bucket_set bucket (h % hash_bucket_size) chain))

-- Only a record that is accepted has its label written.
unfoldable pub rename_if : IntRet → TreeNode → List ℕ → Option TreeNode
rename_if (ret n) tn target = tree_node_rename tn target
rename_if minus_one tn target = some tn

-- The loop that moves a chain to the buckets, each node to the head of its bucket.
module _ (hash_fun : List ℕ → Option ℕ) where
  unfoldable pub switch_to_bucket : Chain → (ℕ → Chain) → Option (ℕ → Chain)
  switch_to_bucket end_of_chain bucket = some bucket
  switch_to_bucket (linked_node domain slots below next) bucket = do
    h ← hash_fun domain
    let i = h % hash_bucket_size
    switch_to_bucket next (bucket_set bucket i (linked_node domain slots below (bucket i)))

  -- `tree_node_insert`; the caller's writes through the returned pointer are the contents given
  -- here. A label that does not fit `domain` is written past it: a fault.
  unfoldable pub tree_node_insert : TreeNode → List ℕ → Slots → Child → Option TreeNode
  tree_node_insert tn [] slots below = none
  tree_node_insert (hash_bucket size bucket) (n ∷ rev_domain) slots below = do
    label ← read_bytes (n ∷ rev_domain) 0 (n + 1)
    domain ← write_bytes (zeroed subdomain_max) 0 label
    h ← hash_fun (n ∷ rev_domain)
    let i = h % hash_bucket_size
    some (
        hash_bucket ((size + 1) % 2 ^ 32)
          (bucket_set bucket i (linked_node domain slots below (bucket i))))
  tree_node_insert (linked_list size chain) (n ∷ rev_domain) slots below = do
    label ← read_bytes (n ∷ rev_domain) 0 (n + 1)
    domain ← write_bytes (zeroed subdomain_max) 0 label
    let chain' = linked_node domain slots below chain
    let size' = (size + 1) % 2 ^ 32
    let switched = switch_to_bucket chain' (λ _. end_of_chain) >>= λ b. some (hash_bucket size' b)
    if ltb hash_switch_threshold size' then switched else some (linked_list size' chain')

-- The index of a record type in `data`.
unfoldable pub element_index : ℕ → Option ℕ
element_index type =
    if type == rrtype_a
    then some 0
    else if type == rrtype_cname
    then some 1
    else if type == rrtype_aaaa
    then some 2
    else none

-- `memcmp(a, b, n) == 0`
unfoldable pub memcmp_eq : ℕ → List ℕ → List ℕ → Option Bool
memcmp_eq zero a b = some true
memcmp_eq (suc n) [] b = none
memcmp_eq (suc n) (x ∷ a) [] = none
memcmp_eq (suc n) (x ∷ a) (y ∷ b) =
    let rest = memcmp_eq n a b in if x == y then rest else some false

-- Whether some record has the same data, compared over the length of the new one.
unfoldable pub is_duplicate : ResourceRecord → List ResourceRecord → Option Bool
is_duplicate rr [] = some false
is_duplicate rr (old ∷ olds) = do
  same ← memcmp_eq rr.rdlength (block_of rr.rdata) (block_of old.rdata)
  let rest = is_duplicate rr olds
  if same then some true else rest

-- The final node of an insertion: a record is refused at the limit and as a duplicate.
unfoldable pub put_record : ℕ → ResourceRecord → Element → Option (IntRet × Element)
put_record index rr e =
    let olds = e.slots index in
    if leb rr_cnt_max (length olds)
    then some (minus_one, e)
    else (is_duplicate rr olds >>= λ duplicate.
        if duplicate
        then some (minus_one, e)
        else some
            (ret 1, record e { slots = λ i. if i == index then olds ++ (rr ∷ []) else e.slots i }))

-- The tree below an element, created if there is none.
abbrev pub child_or_new : Child → TreeNode
child_or_new no_child = create_tree_node
child_or_new (child tn) = tn

-- The slots of a new node that holds one record.
abbrev pub only_record : ℕ → ResourceRecord → Slots
only_record index rr i = if i == index then rr ∷ [] else []

-- The loop of `tree_insert` at the node `tn`: the result, and `tn` afterwards. `next` is the length
-- of the label behind the first one. A node that is missing above the last label is created with an
-- empty child, and the loop goes on at the same label.
module _ (hash_fun : List ℕ → Option ℕ) (index : ℕ) (rr : ResourceRecord) where
  unfoldable pub tree_insert_loop : ℕ → TreeNode → List ℕ → Option (IntRet × TreeNode)
  tree_insert_loop zero tn rev_domain = none
  tree_insert_loop (suc fuel) tn rev_domain = do
    n ← get_elem? rev_domain 0
    elim (n == 0) [
      | true ↦ some (ret 1, tn)
      | false ↦ do
        next ← get_elem? rev_domain (n + 1)
        found ← tree_node_find tn rev_domain
        elim found [
          | some e ↦ elim (next == 0) [
            | true ↦ do
              (result, e') ← put_record index rr e
              tn1 ← tree_node_update tn rev_domain (λ _. e')
              tn2 ← rename_if result tn1 rev_domain
              some (result, tn2)
            | false ↦ do
              (result, below) ←
                  tree_insert_loop fuel (child_or_new e.below) (drop (n + 1) rev_domain)
              tn' ← tree_node_update tn rev_domain (λ e. record e { below = child below })
              some (result, tn')
          ]
          | none ↦ elim (next == 0) [
            | true ↦ do
              tn' ← tree_node_insert hash_fun tn rev_domain (only_record index rr) no_child
              some (ret 1, tn')
            | false ↦ do
              tn' ← tree_node_insert hash_fun tn rev_domain empty_slots (child create_tree_node)
              tree_insert_loop fuel tn' rev_domain
          ]
        ]
    ]

-- `tree_insert` on the root. With an unsupported type the tree stays as it is.
unfoldable pub tree_insert :
    ℕ → (List ℕ → Option ℕ) → TreeNode → List ℕ → ResourceRecord → Option (IntRet × TreeNode)
tree_insert fuel hash_fun root rev_domain rr = elim (element_index rr.type) [
  | none ↦ some (minus_one, root)
  | some index ↦ tree_insert_loop hash_fun index rr fuel root rev_domain
]

-- `rr_copy` of each record into `dest`; its result is not looked at.
unfoldable pub copy_records : List ResourceRecord → Option (List ResourceRecord)
copy_records [] = some []
copy_records (rr ∷ rrs) = do (_, copy) ← rr_copy rr; copies ← copy_records rrs; some (copy ∷ copies)

-- The loop of `tree_search`: the records stored in `dest`, whose number is the result.
unfoldable pub tree_search_loop : ℕ → ℕ → Child → List ℕ → Option (List ResourceRecord)
tree_search_loop index zero tn domain = none
tree_search_loop index (suc fuel) no_child domain = some []
tree_search_loop index (suc fuel) (child tn) domain = do
  n ← get_elem? domain 0
  elim (n == 0) [
    | true ↦ some []
    | false ↦ do
      next ← get_elem? domain (n + 1)
      found ← tree_node_find tn domain
      elim found [
        | none ↦ some []
        | some e ↦ elim (next == 0) [
          | true ↦ copy_records (e.slots index)
          | false ↦ tree_search_loop index fuel e.below (drop (n + 1) domain)
        ]
      ]
  ]

unfoldable pub tree_search : ℕ → TreeNode → List ℕ → ℕ → Option (List ResourceRecord)
tree_search fuel root domain rr_type = elim (element_index rr_type) [
  | none ↦ some []
  | some index ↦ tree_search_loop index fuel (child root) domain
]
