-- ===== src/Resolver.antt =====
-- src/socket/resolv.c: `resolv_handle` answers a request from the cache, the database or the upstream
-- server. The state that it shares is the cache; `now` is the time of the whole call.
pub mod Handle
pub mod Caching
pub mod Respond
pub mod Question
pub mod Blocked
pub mod Local
pub mod External
pub mod Relay
pub mod Faults
pub mod Pair
use mathlib.Core.Option
use baka_dns.Base.{
  ℕ, zero, suc, ◌+◌, ◌-◌, ◌%◌, ◌^◌, Bool, true, false, not, Option, none, some, List, [], ◌∷◌, ◌++◌,
  map, ◌==◌, leb, if◌then◌else◌, ◌>>=◌, get_elem?, length, set, take, drop, replicate, zeroed,
  write_byte,
}
use baka_dns.Message.{
  MessageHeader, MessageQuestion, ResourceRecord, Message, PtrArray, IntRet, ret, minus_one,
}
use baka_dns.Message.Flags.{qr_of, opcode_of, create_misc1, create_misc2}
use baka_dns.Message.Name.{domain_len, strncmp_eq}
use baka_dns.Message.Record.{mq_copy, check_blocked, free_heap_message}
use baka_dns.Message.Print.{message_to_u8}
use baka_dns.Trees.{TreeNode}
use baka_dns.Database.{select_database}
use baka_dns.Cache.{Cache, cache_find_rr, cache_put_rr}
use baka_dns.Client.{Network, Sent, returns, thread_exit, elements_of, send_question}

abbrev pub ancount_max : ℕ
ancount_max = 100

abbrev pub rcode_format_error : ℕ
rcode_format_error = 1

-- The inner loop of `print_question`: `len` bytes from position `i` on are copied to position `qi`.
unfoldable pub copy_label : ℕ → List ℕ → ℕ → List ℕ → ℕ → Option (List ℕ)
copy_label zero qname i questionbuf qi = some questionbuf
copy_label (suc len) qname i questionbuf qi = do
  c ← get_elem? qname i
  questionbuf1 ← write_byte questionbuf qi c
  copy_label len qname (i + 1) questionbuf1 (qi + 1)

-- The outer loop, for at most `left` more bytes of the name: the text in `questionbuf`.
unfoldable pub print_loop : ℕ → List ℕ → ℕ → ℕ → List ℕ → ℕ → Option (List ℕ)
print_loop zero qname dlen i questionbuf qi = some questionbuf
print_loop (suc left) qname dlen i questionbuf qi = elim (leb dlen i) [
  | true ↦ some questionbuf
  | false ↦ do
    len ← get_elem? qname i
    elim (len == 0) [
      | true ↦ some questionbuf
      | false ↦ do
        questionbuf1 ← copy_label len qname (i + 1) questionbuf qi
        questionbuf2 ← write_byte questionbuf1 (qi + len) 46
        print_loop left qname dlen (i + len + 1) questionbuf2 (qi + len + 1)
    ]
]

-- `print_question`: the text that is logged, if the name is not too long.
unfoldable pub print_question : MessageQuestion → Option (Option (List ℕ))
print_question mq = domain_len mq.qname >>= elim [
  | minus_one ↦ some none
  | ret dlen ↦ do text ← print_loop dlen mq.qname dlen 0 (zeroed 512) 0; some (some text)
]

-- `rr_match`, which nothing calls: its last operand holds where `strncmp` is not 0.
unfoldable pub rr_match : ResourceRecord → MessageQuestion → ℕ → Option Bool
rr_match rr mq dlen = elim (rr.type == mq.qtype) [
  | false ↦ some false
  | true ↦ elim (rr.class == mq.qclass) [
    | false ↦ some false
    | true ↦ do same ← strncmp_eq dlen rr.name mq.qname; some (not same)
  ]
]

-- A zeroed record: its two pointers are NULL, and a read of one is a fault.
abbrev pub zero_record : ResourceRecord
zero_record = record { name = []; type = 0; class = 0; ttl = 0; rdlength = 0; rdata = none }

-- The variables of `resolv_handle` in its loop over the questions, and the cache.
pub record Lookup : Type 0 where
  pub external_dns_flag : Bool
  pub failure_flag : ℕ
  pub ans_cnt : ℕ
  pub ans_buffer : List ResourceRecord
  pub cache : Cache

-- Records stored at the start of `ans_buffer`; more than it holds are a fault.
unfoldable pub fill : List ResourceRecord → List ResourceRecord → Option (List ResourceRecord)
fill ans_buffer [] = some ans_buffer
fill [] (rr ∷ rrs) = none
fill (old ∷ ans_buffer) (rr ∷ rrs) = do rest ← fill ans_buffer rrs; some (rr ∷ rest)

module _ (fuel now : ℕ) where
  -- `cache_put_rr` of each of some records.
  unfoldable pub put_all : Cache → List ResourceRecord → Option Cache
  put_all c [] = some c
  put_all c (rr ∷ rrs) = do c1 ← cache_put_rr fuel now c rr; put_all c1 rrs

  -- The branch `n_rec > 0`.
  unfoldable pub from_cache : Lookup → List ResourceRecord → Option Lookup
  from_cache s rrs = do
    ans_buffer ← fill s.ans_buffer rrs
    cache ← put_all s.cache rrs
    some (record s { ans_cnt = s.ans_cnt + length rrs; ans_buffer = ans_buffer; cache = cache })

-- The index of the first blocked record.
unfoldable pub find_blocked : ℕ → List ResourceRecord → Option (Option ℕ)
find_blocked i [] = some none
find_blocked i (rr ∷ rrs) = do
  blocked ← check_blocked rr
  elim blocked [ true ↦ some (some i) | false ↦ find_blocked (i + 1) rrs ]

-- The branch `n_rr_db > 0`. A blocked record at `i` is freed, once for each record.
unfoldable pub from_database : Lookup → List ResourceRecord → Option Lookup
from_database s rrs = do
  ans_buffer ← fill s.ans_buffer rrs
  found ← find_blocked 0 rrs
  elim found [
    | none ↦ some (record s { ans_cnt = length rrs; ans_buffer = ans_buffer })
    | some i ↦ do
      rr ← get_elem? ans_buffer i
      some (record s {
        ans_cnt = 0;
        ans_buffer = set ans_buffer i (record rr { name = []; rdata = none });
      })
  ]

module _ (fuel now : ℕ) (tree : TreeNode) where
  -- The loop over the questions, for the `n` that are left.
  unfoldable pub lookup_loop : ℕ → List (Option MessageQuestion) → Lookup → Option Lookup
  lookup_loop zero questions s = some s
  lookup_loop (suc n) [] s = none
  lookup_loop (suc n) (none ∷ questions) s = some (record s { failure_flag = rcode_format_error })
  lookup_loop (suc n) (some question ∷ questions) s = do
    _ ← print_question question
    dlen ← domain_len question.qname
    elim dlen [
      | minus_one ↦ some (record s { failure_flag = rcode_format_error })
      | ret _ ↦ do
        cached ← cache_find_rr fuel s.cache question.qname question.qtype question.qclass
        elim cached [
          | rr ∷ rrs ↦ do s1 ← from_cache fuel now s (rr ∷ rrs); lookup_loop n questions s1
          | [] ↦ do
            local ← select_database tree question
            elim local [
              | rr ∷ rrs ↦ do s1 ← from_database s (rr ∷ rrs); lookup_loop n questions s1
              | [] ↦ some (record s { external_dns_flag = true })
            ]
        ]
    ]

-- `ans` as it is set up.
unfoldable pub setup_answer : ℕ → Message
setup_answer id = record {
  header = record {
    id = id;
    misc1 = create_misc1 1 0 1 0 0;
    misc2 = create_misc2 0 0 0;
    qdcount = 0;
    ancount = 0;
    nscount = 0;
    arcount = 0;
  };
  question = none;
  answer = none;
  authority = none;
  addition = none;
}

-- `ans.header.ancount = ans.header.arcount = ans.header.nscount = 0`
abbrev pub clear_counts : Message → Message
clear_counts ans = record ans {
  header = record ans.header { ancount = 0; nscount = 0; arcount = 0 };
}

-- The elements of an array, none of which may be NULL.
unfoldable pub read_elements : {A : Type 0} → ℕ → List (Option A) → Option (List A)
read_elements zero elements = some []
read_elements (suc n) [] = none
read_elements (suc n) (none ∷ elements) = none
read_elements (suc n) (some a ∷ elements) = do rest ← read_elements n elements; some (a ∷ rest)
