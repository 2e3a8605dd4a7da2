-- ===== src/Message/Parse.antt =====
-- Reading a message: `msg_header_from_buf`, `msg_question_from_buf`, `msg_rr_from_buf` and
-- `message_from_buf` of src/storage/message.c. The packet is an array, a position in it stands for a
-- pointer, and `none` is a read or write outside an array, or a recursion of `read_domain` that
-- needs more than the fuel.
use baka_dns.Base.{
  ℕ, zero, suc, ◌+◌, ◌*◌, ◌%◌, ◌^◌, Bool, ◌||◌, Option, none, some, List, [], ◌∷◌, ltb, ◌==◌,
  if◌then◌else◌, ◌>>=◌, zeroed, read_bytes, write_bytes,
}
use baka_dns.Message.{
  MessageHeader, MessageQuestion, ResourceRecord, PtrArray, Message, IntRet, ret, minus_one,
  domain_buf_len, rr_buf_size, rrtype_soa, rrtype_mx, rrtype_ns, rrtype_ptr, rrtype_txt,
  rrtype_cname,
}
use baka_dns.Message.Word.{u8n_to_u16h, u8n_to_u32h, u8n_to_u8h}
use baka_dns.Message.Flags.{tc_of}
use baka_dns.Message.Name.{read_domain}

abbrev pub message_header_size : ℕ
message_header_size = 12

-- `print_msg_header` at the end of the source only logs.
unfoldable pub msg_header_from_buf : List ℕ → ℕ → Option MessageHeader
msg_header_from_buf buf p = do
  id ← u8n_to_u16h buf p
  misc1 ← u8n_to_u8h buf (p + 2)
  misc2 ← u8n_to_u8h buf (p + 2 + 1)
  qdcount ← u8n_to_u16h buf (p + 2 + 1 + 1)
  ancount ← u8n_to_u16h buf (p + 2 + 1 + 1 + 2)
  nscount ← u8n_to_u16h buf (p + 2 + 1 + 1 + 2 + 2)
  arcount ← u8n_to_u16h buf (p + 2 + 1 + 1 + 2 + 2 + 2)
  some (record {
    id = id;
    misc1 = misc1;
    misc2 = misc2;
    qdcount = qdcount;
    ancount = ancount;
    nscount = nscount;
    arcount = arcount;
  })

-- The question, and the number of bytes that it takes.
unfoldable pub msg_question_from_buf : ℕ → List ℕ → ℕ → Option (MessageQuestion × ℕ)
msg_question_from_buf fuel base buf = do
  r ← read_domain fuel base buf (zeroed domain_buf_len) 0
  qname ← read_bytes r.dest 0 r.len
  qtype ← u8n_to_u16h base (buf + r.offset)
  qclass ← u8n_to_u16h base (buf + r.offset + 2)
  some (record { qname = qname; qtype = qtype; qclass = qclass }, r.offset + 2 + 2)

-- The SOA case: `buf` has moved behind the first name when the last `memcpy` adds
-- `mname_offset` to it once more.
unfoldable pub soa_rdata : ℕ → List ℕ → ℕ → List ℕ → Option (List ℕ × ℕ)
soa_rdata fuel base buf rrbuf = do
  m ← read_domain fuel base buf rrbuf 0
  r ← read_domain fuel base (buf + m.offset) m.dest m.len
  numbers ← read_bytes base (buf + m.offset + m.offset + r.offset) (4 * 5)
  rrbuf' ← write_bytes r.dest (m.len + r.len) numbers
  some (rrbuf', (m.len + r.len + 4 * 5) % 2 ^ 16)

unfoldable pub mx_rdata : ℕ → List ℕ → ℕ → List ℕ → Option (List ℕ × ℕ)
mx_rdata fuel base buf rrbuf = do
  preference ← read_bytes base buf 2
  rrbuf' ← write_bytes rrbuf 0 preference
  e ← read_domain fuel base (buf + 2) rrbuf' 2
  some (e.dest, (e.len + 2) % 2 ^ 16)

-- NS, PTR, TXT and CNAME
unfoldable pub domain_rdata : ℕ → List ℕ → ℕ → List ℕ → Option (List ℕ × ℕ)
domain_rdata fuel base buf rrbuf = do
  r ← read_domain fuel base buf rrbuf 0
  some (r.dest, r.len % 2 ^ 16)

unfoldable pub plain_rdata : List ℕ → ℕ → ℕ → List ℕ → Option (List ℕ × ℕ)
plain_rdata base buf rdlength rrbuf = do
  bytes ← read_bytes base buf rdlength
  rrbuf' ← write_bytes rrbuf 0 bytes
  some (rrbuf', rdlength)

-- The types whose data `msg_rr_from_buf` reads as one domain name.
abbrev pub is_domain_type : ℕ → Bool
is_domain_type type =
    type == rrtype_ns || (type == rrtype_ptr || (type == rrtype_txt || type == rrtype_cname))

-- The `switch (type)`: the contents of `rrbuf` and `real_rdlength`.
unfoldable pub rdata_from_buf : ℕ → List ℕ → ℕ → ℕ → ℕ → Option (List ℕ × ℕ)
rdata_from_buf fuel base buf type rdlength =
    let rrbuf : List ℕ = zeroed rr_buf_size in
    if type == rrtype_soa
    then soa_rdata fuel base buf rrbuf
    else if type == rrtype_mx
    then mx_rdata fuel base buf rrbuf
    else if is_domain_type type
    then domain_rdata fuel base buf rrbuf
    else plain_rdata base buf rdlength rrbuf

-- The record, and the number of bytes that it takes.
unfoldable pub msg_rr_from_buf : ℕ → List ℕ → ℕ → Option (ResourceRecord × ℕ)
msg_rr_from_buf fuel base buf = do
  n ← read_domain fuel base buf (zeroed domain_buf_len) 0
  name ← read_bytes n.dest 0 n.len
  type ← u8n_to_u16h base (buf + n.offset)
  class ← u8n_to_u16h base (buf + n.offset + 2)
  ttl ← u8n_to_u32h base (buf + n.offset + 2 + 2)
  rdlength ← u8n_to_u16h base (buf + n.offset + 2 + 2 + 4)
  (rrbuf, real_rdlength) ← rdata_from_buf fuel base (buf + n.offset + 2 + 2 + 4 + 2) type rdlength
  bytes ← read_bytes rrbuf 0 real_rdlength
  some (
    record {
      name = name;
      type = type;
      class = class;
      ttl = ttl;
      rdlength = real_rdlength;
      rdata = if real_rdlength == 0 then none else some bytes;
    },
    n.offset + 2 + 2 + 4 + 2 + rdlength,
  )

-- `for (i = 0; i < count; i++)` over one of the four sections: the elements, and `bufptr` behind
-- them. The test `n < 0` after each element never holds, since neither reader returns -1.
module _ {A : Type 0} (from_buf : ℕ → Option (A × ℕ)) where
  unfoldable pub section_from_buf : ℕ → ℕ → Option (List (Option A) × ℕ)
  section_from_buf zero bufptr = some ([], bufptr)
  section_from_buf (suc count) bufptr = do
    (a, n) ← from_buf bufptr
    (rest, bufptr') ← section_from_buf count (bufptr + n)
    some (some a ∷ rest, bufptr')

-- `if (count) array = malloc(...)`; with no element the field keeps its value.
abbrev pub allocated : {A : Type 0} → ℕ → PtrArray A → List (Option A) → PtrArray A
allocated count old elements = if count == 0 then old else some elements

-- The four loops, and `*msg` behind them.
unfoldable pub sections_from_buf : ℕ → List ℕ → MessageHeader → Message → Option (IntRet × Message)
sections_from_buf fuel buf header msg = do
  (qs, p1) ← section_from_buf (msg_question_from_buf fuel buf) header.qdcount message_header_size
  (ans, p2) ← section_from_buf (msg_rr_from_buf fuel buf) header.ancount p1
  (nss, p3) ← section_from_buf (msg_rr_from_buf fuel buf) header.nscount p2
  (ars, p4) ← section_from_buf (msg_rr_from_buf fuel buf) header.arcount p3
  some (
    ret 1,
    record {
      header = header;
      question = allocated header.qdcount msg.question qs;
      answer = allocated header.ancount msg.answer ans;
      authority = allocated header.nscount msg.authority nss;
      addition = allocated header.arcount msg.addition ars;
    },
  )

-- The result and `*msg`; a truncated message and a short one are refused with -1.
unfoldable pub message_from_buf : ℕ → List ℕ → ℕ → Message → Option (IntRet × Message)
message_from_buf fuel buf size msg =
    if ltb size message_header_size
    then some (minus_one, msg)
    else (msg_header_from_buf buf 0 >>= λ header.
        if tc_of header.misc1 == 0
        then sections_from_buf fuel buf header msg
        else some (minus_one, record msg { header = header }))
