-- ===== src/Message/Print.antt =====
-- Writing a message: `msg_header_to_u8`, `msg_question_to_u8`, `msg_rr_to_u8` and `message_to_u8`
-- of src/storage/message.c. The buffer is an array, a position in it stands for the pointer `dest`, and
-- `none` is an access outside an array.
use baka_dns.Base.{
  ℕ, zero, suc, ◌+◌, ◌-◌, ◌%◌, ◌^◌, Option, none, some, List, [], ◌∷◌, ◌==◌, if◌then◌else◌, ◌>>=◌,
  read_bytes, write_bytes, write_byte,
}
use baka_dns.Message.{
  MessageHeader, MessageQuestion, ResourceRecord, PtrArray, Message, IntRet, ret, minus_one,
}
use baka_dns.Message.Word.{u16h_to_u8n, u32h_to_u8n}
use baka_dns.Message.Name.{domain_len}

-- The buffer afterwards; the result is `sizeof(struct message_header)`.
unfoldable pub msg_header_to_u8 : MessageHeader → List ℕ → ℕ → Option (List ℕ × ℕ)
msg_header_to_u8 header b p = do
  b1 ← u16h_to_u8n header.id b p
  b2 ← write_byte b1 (p + 2) header.misc1
  b3 ← write_byte b2 (p + 2 + 1) header.misc2
  b4 ← u16h_to_u8n header.qdcount b3 (p + 2 + 1 + 1)
  b5 ← u16h_to_u8n header.ancount b4 (p + 2 + 1 + 1 + 2)
  b6 ← u16h_to_u8n header.nscount b5 (p + 2 + 1 + 1 + 2 + 2)
  b7 ← u16h_to_u8n header.arcount b6 (p + 2 + 1 + 1 + 2 + 2 + 2)
  some (b7, 12)

-- The buffer afterwards and the result.
unfoldable pub question_fields_to_u8 : MessageQuestion → ℕ → List ℕ → ℕ → Option (List ℕ × IntRet)
question_fields_to_u8 q len_qname b p = do
  qname ← read_bytes q.qname 0 len_qname
  b1 ← write_bytes b p qname
  b2 ← u16h_to_u8n q.qtype b1 (p + len_qname)
  b3 ← u16h_to_u8n q.qclass b2 (p + len_qname + 2)
  some (b3, ret (len_qname + 2 + 2))

unfoldable pub msg_question_to_u8 : MessageQuestion → List ℕ → ℕ → Option (List ℕ × IntRet)
msg_question_to_u8 q b p = domain_len q.qname >>= elim [
  | minus_one ↦ some (b, minus_one)
  | ret len_qname ↦ question_fields_to_u8 q len_qname b p
]

-- `memcpy(dest, rr->rdata, rr->rdlength)`; NULL is read only if `rdlength` is 0.
unfoldable pub rdata_to_u8 : ResourceRecord → List ℕ → ℕ → Option (List ℕ)
rdata_to_u8 rr b p =
    if rr.rdlength == 0
    then some b
    else (rr.rdata >>= λ rdata. read_bytes rdata 0 rr.rdlength >>= λ bytes. write_bytes b p bytes)

unfoldable pub rr_fields_to_u8 : ResourceRecord → ℕ → List ℕ → ℕ → Option (List ℕ × IntRet)
rr_fields_to_u8 rr len_name b p = do
  name ← read_bytes rr.name 0 len_name
  b1 ← write_bytes b p name
  b2 ← u16h_to_u8n rr.type b1 (p + len_name)
  b3 ← u16h_to_u8n rr.class b2 (p + len_name + 2)
  b4 ← u32h_to_u8n rr.ttl b3 (p + len_name + 2 + 2)
  b5 ← u16h_to_u8n rr.rdlength b4 (p + len_name + 2 + 2 + 4)
  b6 ← rdata_to_u8 rr b5 (p + len_name + 2 + 2 + 4 + 2)
  some (b6, ret (len_name + 2 + 2 + 4 + 2 + rr.rdlength))

unfoldable pub msg_rr_to_u8 : ResourceRecord → List ℕ → ℕ → Option (List ℕ × IntRet)
msg_rr_to_u8 rr b p =
    domain_len rr.name
    >>= elim [ minus_one ↦ some (b, minus_one) | ret len_name ↦ rr_fields_to_u8 rr len_name b p ]

-- `dest += tmp`, for a `tmp` that may be -1: a pointer before the buffer is a fault.
unfoldable pub advance : ℕ → IntRet → Option ℕ
advance p (ret n) = some (p + n)
advance p minus_one = if p == 0 then none else some (p - 1)

-- `size += tmp` in a `uint32_t`.
unfoldable pub add_size : ℕ → IntRet → ℕ
add_size size (ret n) = (size + n) % 2 ^ 32
add_size size minus_one = (size + 2 ^ 32 - 1) % 2 ^ 32

-- How a loop over a section ends: with the buffer, `dest` and the section's size, or because a
-- pointer of it is NULL, where `message_to_u8` returns -1.
pub data Written : Type 0 where
  written : List ℕ → ℕ → ℕ → Written
  null_pointer : List ℕ → Written

-- The loop for `count` elements of an array. Reading past the array is a fault.
module _ {A : Type 0} (to_u8 : A → List ℕ → ℕ → Option (List ℕ × IntRet)) where
  unfoldable pub elements_to_u8 : ℕ → List (Option A) → List ℕ → ℕ → ℕ → Option Written
  elements_to_u8 zero elements b p size = some (written b p size)
  elements_to_u8 (suc count) [] b p size = none
  elements_to_u8 (suc count) (none ∷ elements) b p size = some (null_pointer b)
  elements_to_u8 (suc count) (some a ∷ elements) b p size = do
    (b', tmp) ← to_u8 a b p
    p' ← advance p tmp
    elements_to_u8 count elements b' p' (add_size size tmp)

  unfoldable pub section_to_u8 : ℕ → PtrArray A → List ℕ → ℕ → Option Written
  section_to_u8 zero array b p = some (written b p 0)
  section_to_u8 (suc count) none b p = some (null_pointer b)
  section_to_u8 (suc count) (some elements) b p = elements_to_u8 (suc count) elements b p 0

-- What follows a section, unless a pointer was NULL.
abbrev pub then_write :
    Written → (List ℕ → ℕ → ℕ → Option (List ℕ × IntRet)) → Option (List ℕ × IntRet)
then_write (written b p size) k = k b p size
then_write (null_pointer b) k = some (b, minus_one)

-- The buffer afterwards, and the number of bytes written or -1.
unfoldable pub message_to_u8 : Message → List ℕ → Option (List ℕ × IntRet)
message_to_u8 msg dest =
    let h = msg.header in
    msg_header_to_u8 h dest 0 >>= λ (b0, hsize).
    section_to_u8 msg_question_to_u8 h.qdcount msg.question b0 hsize >>= λ w1.
    then_write w1 λ b1 p1 qsize. section_to_u8 msg_rr_to_u8 h.ancount msg.answer b1 p1 >>= λ w2.
    then_write w2 λ b2 p2 ansize. section_to_u8 msg_rr_to_u8 h.nscount msg.authority b2 p2 >>= λ w3.
    then_write w3 λ b3 p3 nssize. section_to_u8 msg_rr_to_u8 h.arcount msg.addition b3 p3 >>= λ w4.
    then_write w4
      λ b4 p4 arsize. some (b4, ret ((hsize + qsize + ansize + nssize + arsize) % 2 ^ 32))
