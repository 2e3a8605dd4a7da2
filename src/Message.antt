-- ===== src/Message.antt =====
-- The data model of src/storage/message.h: the four structures of a DNS message, and its constants.
-- A pointer that may be NULL is an option; a C string or a block of bytes is the list of its bytes.
pub mod Word
pub mod Flags
pub mod Name
pub mod Labels
pub mod Reverse
pub mod Record
pub mod Parse
pub mod Print
pub mod Wire
use baka_dns.Base.{ℕ, Option, List}

-- `struct message_header`
pub record MessageHeader : Type 0 where
  pub id : ℕ
  pub misc1 : ℕ
  pub misc2 : ℕ
  pub qdcount : ℕ
  pub ancount : ℕ
  pub nscount : ℕ
  pub arcount : ℕ

-- `struct message_question`
pub record MessageQuestion : Type 0 where
  pub qname : List ℕ
  pub qtype : ℕ
  pub qclass : ℕ

-- `struct resource_record`; the source's field `_class` is `class` here.
pub record ResourceRecord : Type 0 where
  pub name : List ℕ
  pub type : ℕ
  pub class : ℕ
  pub ttl : ℕ
  pub rdlength : ℕ
  pub rdata : Option (List ℕ)

-- `T**`: NULL, or an array of pointers, each NULL or to a `T`.
abbrev pub PtrArray : Type 0 → Type 0
PtrArray A = Option (List (Option A))

-- `struct message`
pub record Message : Type 0 where
  pub header : MessageHeader
  pub question : PtrArray MessageQuestion
  pub answer : PtrArray ResourceRecord
  pub authority : PtrArray ResourceRecord
  pub addition : PtrArray ResourceRecord

abbrev pub domain_len_max : ℕ
domain_len_max = 255

abbrev pub domain_buf_len : ℕ
domain_buf_len = 512

abbrev pub rr_buf_size : ℕ
rr_buf_size = 512

abbrev pub rrtype_a : ℕ
rrtype_a = 1

abbrev pub rrtype_ns : ℕ
rrtype_ns = 2

abbrev pub rrtype_cname : ℕ
rrtype_cname = 5

abbrev pub rrtype_ptr : ℕ
rrtype_ptr = 12

abbrev pub rrtype_mx : ℕ
rrtype_mx = 15

abbrev pub rrtype_soa : ℕ
rrtype_soa = 6

abbrev pub rrtype_opt : ℕ
rrtype_opt = 41

abbrev pub rrtype_txt : ℕ
rrtype_txt = 16

abbrev pub rrtype_aaaa : ℕ
rrtype_aaaa = 28

-- An `int` result that is -1 for an error.
pub data IntRet : Type 0 where
  ret : ℕ → IntRet
  minus_one : IntRet
