-- ===== src/Message/Record.antt =====
-- Operations on records and questions in src/storage/message.c: copies, comparison, construction, and
-- what the `free_heap_` functions leave in a message. A block of memory is the list of its bytes;
-- which block a pointer owns is not part of the model.
pub mod Compare
pub mod Free
use baka_dns.Base.{
  ℕ, zero, suc, ◌-◌, ◌^◌, Bool, true, false, Option, none, some, List, [], ◌∷◌, ◌==◌, if◌then◌else◌,
  ◌>>=◌, read_bytes,
}
use baka_dns.Message.{MessageQuestion, ResourceRecord, PtrArray, Message, IntRet, ret, minus_one}
use baka_dns.Message.Flags.{create_misc1, create_misc2}
use baka_dns.Message.Name.{domain_len, strncmp_eq}

-- The result and `*dest`. The first `memcpy` copies the whole structure, so on an error the name
-- is still that of the source.
unfoldable pub mq_copy : MessageQuestion → Option (IntRet × MessageQuestion)
mq_copy src = domain_len src.qname >>= elim [
  | minus_one ↦ some (minus_one, src)
  | ret dlen ↦ do qname ← read_bytes src.qname 0 dlen; some (ret 1, record src { qname = qname })
]

-- `memcpy(dest->rdata, src->rdata, rdlength)` if there is data, and NULL if not.
unfoldable pub copy_rdata : ℕ → Option (List ℕ) → Option (Option (List ℕ))
copy_rdata rdlength rdata =
    if rdlength == 0
    then some none
    else (rdata >>= λ block. read_bytes block 0 rdlength >>= λ bytes. some (some bytes))

unfoldable pub rr_copy : ResourceRecord → Option (IntRet × ResourceRecord)
rr_copy src = domain_len src.name >>= elim [
  | minus_one ↦ some (minus_one, src)
  | ret dlen ↦ do
    rdata ← copy_rdata src.rdlength src.rdata
    name ← read_bytes src.name 0 dlen
    some (ret 1, record src { name = name; rdata = rdata })
]

-- The bound that `strncmp` is given: -1 is a `size_t` without limit.
abbrev pub size_of_ret : IntRet → ℕ
size_of_ret (ret n) = n
size_of_ret minus_one = 2 ^ 64 - 1

-- A NULL pointer has no byte that can be read.
abbrev pub block_of : Option (List ℕ) → List ℕ
block_of none = []
block_of (some bytes) = bytes

-- `e = e && ...`: the later comparison is made only if `e` still holds.
abbrev pub and_then : Bool → Option Bool → Option Bool
and_then true m = m
and_then false m = some false

unfoldable pub rr_cmp : ResourceRecord → ResourceRecord → Option Bool
rr_cmp rr1 rr2 = do
  len ← domain_len rr1.name
  same_name ← strncmp_eq (size_of_ret len) rr1.name rr2.name
  let e1 = if same_name then rr1.rdlength == rr2.rdlength else false
  let e2 = if e1 then rr1.type == rr2.type else false
  let e3 = if e2 then rr1.class == rr2.class else false
  and_then e3 (strncmp_eq rr1.rdlength (block_of rr1.rdata) (block_of rr2.rdata))

-- `*(uint32_t*)(rr->rdata) == 0`: the first four bytes, of an IPv6 address too.
unfoldable pub check_blocked : ResourceRecord → Option Bool
check_blocked rr = rr.rdata >>= λ block. read_bytes block 0 4 >>= λ bytes. some (all_zero bytes)
  where
    all_zero : List ℕ → Bool
    all_zero [] = true
    all_zero (b ∷ bs) = if b == 0 then all_zero bs else false

-- The new record; -1 stands for the `pthread_exit` on a name that is too long. With no data the
-- source still calls `memcpy` with length 0.
unfoldable pub create_resource_record :
    List ℕ → ℕ → ℕ → ℕ → ℕ → List ℕ → Option (Option ResourceRecord)
create_resource_record name type class ttl rdlength rdata = domain_len name >>= elim [
  | minus_one ↦ some none
  | ret dlen ↦ do
    name' ← read_bytes name 0 dlen
    bytes ← read_bytes rdata 0 rdlength
    some (
        some (record {
          name = name';
          type = type;
          class = class;
          ttl = ttl;
          rdlength = rdlength;
          rdata = if rdlength == 0 then none else some bytes;
        }))
]

-- `memset` to zero, then the two flag bytes: QR and AA set, and `rcode`.
unfoldable pub construct_error_response : ℕ → Message
construct_error_response rcode = record {
  header = record {
    id = 0;
    misc1 = create_misc1 1 0 1 0 0;
    misc2 = create_misc2 1 0 rcode;
    qdcount = 0;
    ancount = 0;
    nscount = 0;
    arcount = 0;
  };
  question = none;
  answer = none;
  authority = none;
  addition = none;
}

-- The loop over one section: it stops at the count, at a NULL array and at a NULL element, and
-- reads past an array that is shorter than the count.
module _ {A : Type 0} where
  unfoldable pub free_elements : ℕ → List (Option A) → Option (Unit {0})
  free_elements zero elements = some tt
  free_elements (suc count) [] = none
  free_elements (suc count) (none ∷ elements) = some tt
  free_elements (suc count) (some a ∷ elements) = free_elements count elements

  unfoldable pub free_section : ℕ → PtrArray A → Option (PtrArray A)
  free_section count none = some none
  free_section count (some elements) = free_elements count elements >>= λ _. some none

-- The four arrays are freed and set to NULL; the header stays.
unfoldable pub free_heap_message : Message → Option Message
free_heap_message msg = do
  question ← free_section msg.header.qdcount msg.question
  answer ← free_section msg.header.ancount msg.answer
  authority ← free_section msg.header.nscount msg.authority
  addition ← free_section msg.header.arcount msg.addition
  some (record msg {
    question = question;
    answer = answer;
    authority = authority;
    addition = addition;
  })
