-- ===== src/Tests/Sample.antt =====
-- A request for the address of ab.c, a record and a reply that answer it, a cache and a tree.
use mathlib.Core.List.{reverse}
use baka_dns.Base.{ℕ, ◌^◌, ◌<◌, ◌≡◌, refl, true, some, List, [], ◌∷◌, arith}
use baka_dns.Message.{MessageQuestion, ResourceRecord, ret}
use baka_dns.Message.Flags.{tc_of}
use baka_dns.Message.Labels.{Label, label_bytes, encode_labels}
use baka_dns.Message.Wire.{WireMessage, IsName, IsQuestion, IsRecord, IsMessage, opaque_data}
use baka_dns.Trees.{TreeNode, child, create_tree_node, element_index, is_duplicate}
use baka_dns.Trees.Find.{IsTree, view, find_label, label_eq}
use baka_dns.Trees.Contents.{contents, path_eq, put_list, create_tree_node-IsTree}
use baka_dns.Trees.Insert.{tree_insert-put_list}
use baka_dns.Trees.Search.{stored}
use baka_dns.Database.Select.{IsDomain}
use baka_dns.Cache.{Cache, init_cache, cache_put_rr}
use baka_dns.Cache.Segment.{Entry}
use baka_dns.Cache.Walk.{IsCache}
use baka_dns.Cache.Put.{new_entry, init_cache-IsCache, cache_put_rr_new}
use baka_dns.Client.{Network}
use baka_dns.Message.Wire.{encode}

abbrev pub domain : List Label
domain = (97 ∷ 98 ∷ []) ∷ (99 ∷ []) ∷ []

pub domain-IsDomain : IsDomain domain
unfolding label_bytes
domain-IsDomain = record {
  subdomains = (
    record { nonzero = omega arith; inhabited = omega arith; short = omega arith },
    (record { nonzero = omega arith; inhabited = omega arith; short = omega arith }, tt),
  );
  plain = omega arith;
  short = omega arith;
}

abbrev pub question : MessageQuestion
question = record { qname = 2 ∷ 97 ∷ 98 ∷ 1 ∷ 99 ∷ 0 ∷ []; qtype = 1; qclass = 1 }

pub name_of_question : question.qname ≡ encode_labels domain
unfolding encode_labels label_bytes
name_of_question = refl

qname-IsName : IsName question.qname
qname-IsName = record {
  labels = 2 ∷ 97 ∷ 98 ∷ 1 ∷ 99 ∷ [];
  terminated = refl;
  plain = omega arith;
  short = omega arith;
}

question-IsQuestion : IsQuestion question
question-IsQuestion = record { qname = qname-IsName; qtype = omega arith; qclass = omega arith }

abbrev pub address : ResourceRecord
address = record {
  name = question.qname;
  type = 1;
  class = 1;
  ttl = 60;
  rdlength = 4;
  rdata = some (10 ∷ 0 ∷ 0 ∷ 1 ∷ []);
}

pub address-IsRecord : IsRecord address
address-IsRecord = record {
  name = qname-IsName;
  type = omega arith;
  class = omega arith;
  ttl = omega arith;
  rdlength = omega arith;
  holds = (refl, omega arith);
  rdata = opaque_data refl refl refl (omega arith);
}

abbrev pub request : WireMessage
request = record {
  id = 7;
  misc1 = 1;
  misc2 = 0;
  questions = question ∷ [];
  answers = [];
  authorities = [];
  additions = [];
}

pub request-IsMessage : IsMessage request
unfolding tc_of
request-IsMessage = record {
  id = omega arith;
  whole = refl;
  qdcount = omega arith;
  ancount = omega arith;
  nscount = omega arith;
  arcount = omega arith;
  questions = (question-IsQuestion, tt);
  answers = tt;
  authorities = tt;
  additions = tt;
}

-- The request with its question twice.
abbrev pub twice : WireMessage
twice = record request { questions = question ∷ question ∷ [] }

pub twice-IsMessage : IsMessage twice
twice-IsMessage = record {
  id = request-IsMessage.id;
  whole = request-IsMessage.whole;
  qdcount = omega arith;
  ancount = request-IsMessage.ancount;
  nscount = request-IsMessage.nscount;
  arcount = request-IsMessage.arcount;
  questions = (question-IsQuestion, (question-IsQuestion, tt));
  answers = tt;
  authorities = tt;
  additions = tt;
}

-- The reply of the upstream server with some id.
abbrev pub reply_with : ℕ → WireMessage
reply_with id = record {
  id = id;
  misc1 = 129;
  misc2 = 128;
  questions = question ∷ [];
  answers = address ∷ [];
  authorities = [];
  additions = [];
}

pub reply_with-IsMessage : (id : ℕ) → id < 2 ^ 16 → IsMessage (reply_with id)
unfolding tc_of
reply_with-IsMessage id h = record {
  id = h;
  whole = refl;
  qdcount = omega arith;
  ancount = omega arith;
  nscount = omega arith;
  arcount = omega arith;
  questions = (question-IsQuestion, tt);
  answers = (address-IsRecord, tt);
  authorities = tt;
  additions = tt;
}

-- The upstream server answers with the id, and `rand` gives 99.
abbrev pub answering : ℕ → Network
answering id = record {
  socket_created = true;
  timeout_set = true;
  rand = 99;
  exchange = λ sent. some (encode (reply_with id));
}

pub put_address :
    (c' : Cache) × (cache_put_rr 2 1000 (init_cache 900) address ≡ some c')
    × IsCache c' (new_entry 1000 (init_cache 900) address ∷ [])
put_address =
    cache_put_rr_new 2 1000 (init_cache 900) [] address (init_cache-IsCache 900) (omega arith)
      (qname-IsName, (refl, omega arith)) tt

abbrev pub entry : Entry
entry = new_entry 1000 (init_cache 900) address

pub nothing :
    put_list address (contents (reverse domain) (child create_tree_node) 0)
    ≡ some (ret 1, address ∷ [])
unfolding contents create_tree_node view find_label put_list is_duplicate
nothing = refl

pub index_of_address : element_index address.type ≡ some 0
unfolding element_index
index_of_address = refl

grown : (tree : TreeNode) × IsTree tree × (contents (reverse domain) (child tree) 0 ≡ address ∷ [])
unfolding path_eq label_eq
grown =
    let (tree, runs, valid, seen) =
      tree_insert-put_list 4 create_tree_node (99 ∷ []) ((97 ∷ 98 ∷ []) ∷ []) [] address 0 (ret 1)
        (address ∷ []) create_tree_node-IsTree
        (domain-IsDomain.subdomains.1.0, (domain-IsDomain.subdomains.0, tt)) (omega arith)
        index_of_address nothing in
    (tree, valid, seen (reverse domain) 0)

-- A tree with the record.
pub stored_address :
    (tree : TreeNode) × IsTree tree × (stored tree (reverse domain) 1 ≡ address ∷ [])
unfolding stored element_index
stored_address = (grown.0, grown.1, grown.2)

pub stored_nothing : stored create_tree_node (reverse domain) 1 ≡ []
unfolding stored element_index contents create_tree_node view find_label
stored_nothing = refl
