-- ===== src/Tests/Load.antt =====
-- The loop of `init_database` in src/storage/database.c on the line "10.0.0.1 Ab.c".
use mathlib.Core.List.{reverse}
use baka_dns.Base.{
  ℕ, ◌≡◌, refl, map, some, none, List, [], ◌∷◌, All, arith, length, length-zeroed, zeroed,
}
use baka_dns.Message.{ret, domain_buf_len}
use baka_dns.Message.Labels.{Label, label_bytes, encode_labels}
use baka_dns.Trees.{TreeNode, child, create_tree_node, element_index, is_duplicate}
use baka_dns.Trees.Find.{IsTree, view, find_label}
use baka_dns.Trees.Contents.{contents, put_list, create_tree_node-IsTree}
use baka_dns.Trees.Search.{IsStored}
use baka_dns.Database.{insert_database, select_database}
use baka_dns.Database.Format.{IsToken}
use baka_dns.Database.Select.{encode_labels-IsName, select_database-insert_database}
use baka_dns.Database.Load.{Loading, load_line, init_database}
use baka_dns.Database.Load.Line.{IsLine, joined, line_of, line_record, load_line-line_of}
use baka_dns.Database.Load.File.{
  RelayLine, IsRelayLine, text_of, answers_of, init_database-addresses,
}
use baka_dns.Conf.{InetPton}
use baka_dns.Tests.Sample.{domain, domain-IsDomain, question, name_of_question}

-- "10.0.0.1"
abbrev ip : List ℕ
ip = 49 ∷ 48 ∷ 46 ∷ 48 ∷ 46 ∷ 48 ∷ 46 ∷ 49 ∷ []

abbrev address : List ℕ
address = 10 ∷ 0 ∷ 0 ∷ 1 ∷ []

abbrev label : Label
label = 65 ∷ 98 ∷ []

abbrev labels : List Label
labels = (99 ∷ []) ∷ []

abbrev pton : InetPton
pton = record { inet = λ _. some address; inet6 = λ _. none }

abbrev first_line : Loading
first_line = record {
  ipbuf = none;
  domainbuf = none;
  formatd = zeroed domain_buf_len;
  tree = create_tree_node;
}

ip-IsLine : IsLine ip (joined label labels)
unfolding joined
ip-IsLine = record {
  ip_ink = ground arith;
  ip_inhabited = omega arith;
  name_ink = ground arith;
  name_inhabited = omega arith;
  short = omega arith;
  ip_short = omega arith;
  name_short = omega arith;
}

index : element_index 1 ≡ some 0
unfolding element_index
index = refl

put :
    put_list (line_record domain address) (contents (reverse domain) (child create_tree_node) 0)
    ≡ some (ret 1, line_record domain address ∷ [])
unfolding contents create_tree_node view find_label put_list is_duplicate
put = refl

length-encoded : length (encode_labels domain) ≡ 6
unfolding encode_labels label_bytes
length-encoded = refl

line_record-IsStored : IsStored (line_record domain address)
line_record-IsStored = (encode_labels-IsName domain domain-IsDomain, (refl, omega arith))

tokens : All IsToken (label ∷ labels)
tokens = (
  record { plain = ground arith; inhabited = omega arith; short = omega arith },
  (record { plain = ground arith; inhabited = omega arith; short = omega arith }, tt),
)

inserted :
    (tree' : TreeNode) × (insert_database create_tree_node (line_record domain address)
      ≡ some (ret 1, tree'))
inserted =
    let (tree', runs, valid, same, others) =
      select_database-insert_database create_tree_node (line_record domain address) domain 0 (ret 1)
        (line_record domain address ∷ []) create_tree_node-IsTree domain-IsDomain (omega arith) refl
        index put (line_record-IsStored, tt) in
    (tree', runs)

load_line-line_of_example :
    (s' : Loading) × (load_line pton (line_of ip (joined label labels)) first_line ≡ some (some s'))
    × (s'.tree ≡ inserted.0)
    × (length s'.formatd ≡ 512)
load_line-line_of_example =
    load_line-line_of pton ip address label labels first_line (ret 1) inserted.0 ip-IsLine tokens
      domain-IsDomain (omega (arith, length-encoded)) (length-zeroed 512) refl refl inserted.1

abbrev relay_line : RelayLine
relay_line = record { ip = ip; address = address; label = label; labels = labels }

relay_line-IsRelayLine : IsRelayLine pton relay_line
relay_line-IsRelayLine = record {
  line = ip-IsLine;
  tokens = tokens;
  domain = domain-IsDomain;
  short = omega (arith, length-encoded);
  converts = refl;
  four = refl;
}

-- The second line has the same address.
answers_of_question :
    answers_of (relay_line ∷ relay_line ∷ []) domain 1 ≡ line_record domain address ∷ []
answers_of_question = refl

init_database-addresses_example :
    (tree : TreeNode) × (init_database pton (some (map text_of (relay_line ∷ relay_line ∷ [])))
      ≡ some (some (ret 1, tree)))
    × IsTree tree
    × (select_database tree question
        ≡ some (answers_of (relay_line ∷ relay_line ∷ []) domain question.qtype))
init_database-addresses_example =
    init_database-addresses pton (relay_line ∷ relay_line ∷ []) question domain
      (relay_line-IsRelayLine, (relay_line-IsRelayLine, tt)) domain-IsDomain name_of_question
