-- ===== src/Message/Wire.antt =====
-- The wire format of RFC 1035 section 4 for messages whose names are not compressed, as an
-- independent description that the reader and the writer of src/storage/message.c are held against.
pub mod Write
pub mod Read
pub mod RoundTrip
pub mod ErrorResponse
use baka_dns.Base.{
  ℕ, ◌+◌, ◌≤◌, ◌<◌, ◌^◌, ◌≡◌, ◌≢◌, ◌⊎◌, Bool, true, false, ◌||◌, Option, none, some, List, [], ◌∷◌,
  ◌++◌, map, length, ◌==◌, sym,
}
use baka_dns.Message.{
  MessageHeader, MessageQuestion, ResourceRecord, Message, PtrArray, rrtype_soa, rrtype_mx,
}
use baka_dns.Message.Word.{htons_bytes, htonl_bytes}
use baka_dns.Message.Flags.{tc_of}
use baka_dns.Base.{All}
use baka_dns.Message.Name.Complete.{PlainByte}
use baka_dns.Message.Parse.{is_domain_type, allocated}

-- A message as its sections.
pub record WireMessage : Type 0 where
  pub id : ℕ
  pub misc1 : ℕ
  pub misc2 : ℕ
  pub questions : List MessageQuestion
  pub answers : List ResourceRecord
  pub authorities : List ResourceRecord
  pub additions : List ResourceRecord

abbrev pub header_of : WireMessage → MessageHeader
header_of w = record {
  id = w.id;
  misc1 = w.misc1;
  misc2 = w.misc2;
  qdcount = length w.questions;
  ancount = length w.answers;
  nscount = length w.authorities;
  arcount = length w.additions;
}

-- An array of pointers to the elements, NULL if there are none.
abbrev pub array_of : {A : Type 0} → List A → PtrArray A
array_of xs = allocated (length xs) none (map some xs)

-- The C structure that holds the message.
abbrev pub message_of : WireMessage → Message
message_of w = record {
  header = header_of w;
  question = array_of w.questions;
  answer = array_of w.answers;
  authority = array_of w.authorities;
  addition = array_of w.additions;
}

abbrev pub rdata_bytes : Option (List ℕ) → List ℕ
rdata_bytes none = []
rdata_bytes (some bytes) = bytes

unfoldable pub encode_header : MessageHeader → List ℕ
encode_header h =
    htons_bytes h.id
    ++ ((h.misc1 ∷ [])
        ++ ((h.misc2 ∷ [])
            ++ (htons_bytes h.qdcount
                ++ (htons_bytes h.ancount ++ (htons_bytes h.nscount ++ htons_bytes h.arcount)))))

unfoldable pub encode_question : MessageQuestion → List ℕ
encode_question q = q.qname ++ (htons_bytes q.qtype ++ htons_bytes q.qclass)

unfoldable pub encode_rr : ResourceRecord → List ℕ
encode_rr rr =
    rr.name
    ++ (htons_bytes rr.type
        ++ (htons_bytes rr.class
            ++ (htonl_bytes rr.ttl ++ (htons_bytes rr.rdlength ++ rdata_bytes rr.rdata))))

module _ {A : Type 0} (encode : A → List ℕ) where
  unfoldable pub encode_section : List A → List ℕ
  encode_section [] = []
  encode_section (x ∷ xs) = encode x ++ encode_section xs

unfoldable pub encode : WireMessage → List ℕ
encode w =
    encode_header (header_of w)
    ++ (encode_section encode_question w.questions
        ++ (encode_section encode_rr w.answers
            ++ (encode_section encode_rr w.authorities ++ encode_section encode_rr w.additions)))

-- A name of at most 255 bytes with its terminator, none of which reads as a pointer or ends the
-- name early.
pub record IsName (name : List ℕ) : Type 0 where
  pub labels : List ℕ
  pub terminated : name ≡ labels ++ (0 ∷ [])
  pub plain : All PlainByte labels
  pub short : length labels < 255

pub record IsQuestion (q : MessageQuestion) : Type 0 where
  pub qname : IsName q.qname
  pub qtype : q.qtype < 2 ^ 16
  pub qclass : q.qclass < 2 ^ 16

-- The data that is NULL at length 0, and a block of its length otherwise.
abbrev pub HoldsData : ℕ → Option (List ℕ) → Type 0
HoldsData n none = n ≡ 0
HoldsData n (some bytes) = (length bytes ≡ n) × (0 < n)

-- What the data of a record must be: opaque data that fits the buffer of `msg_rr_from_buf`, one
-- name, or a preference and a name. SOA is left out.
pub data IsData (rr : ResourceRecord) : Type 0 where
  opaque_data :
      (rr.type == rrtype_soa) ≡ false
      → (rr.type == rrtype_mx) ≡ false
      → is_domain_type rr.type ≡ false
      → rr.rdlength ≤ 512
      → IsData rr
  name_data : is_domain_type rr.type ≡ true → IsName (rdata_bytes rr.rdata) → IsData rr
  mx_data :
      (high low : ℕ) (exchange : List ℕ)
      → rr.type ≡ rrtype_mx
      → rdata_bytes rr.rdata ≡ high ∷ low ∷ exchange
      → IsName exchange
      → IsData rr

pub record IsRecord (rr : ResourceRecord) : Type 0 where
  pub name : IsName rr.name
  pub type : rr.type < 2 ^ 16
  pub class : rr.class < 2 ^ 16
  pub ttl : rr.ttl < 2 ^ 32
  pub rdlength : rr.rdlength < 2 ^ 16
  pub holds : HoldsData rr.rdlength rr.rdata
  pub rdata : IsData rr

pub record IsMessage (w : WireMessage) : Type 0 where
  pub id : w.id < 2 ^ 16
  pub whole : tc_of w.misc1 ≡ 0
  pub qdcount : length w.questions < 2 ^ 16
  pub ancount : length w.answers < 2 ^ 16
  pub nscount : length w.authorities < 2 ^ 16
  pub arcount : length w.additions < 2 ^ 16
  pub questions : All IsQuestion w.questions
  pub answers : All IsRecord w.answers
  pub authorities : All IsRecord w.authorities
  pub additions : All IsRecord w.additions

-- The data of a valid record, with its length as `rdlength` says.
pub rdata_bytes-length :
    (rr : ResourceRecord) → IsRecord rr → length (rdata_bytes rr.rdata) ≡ rr.rdlength
rdata_bytes-length rr h = go rr.rdata h.holds
  where
    go : (d : Option (List ℕ)) → HoldsData rr.rdlength d → length (rdata_bytes d) ≡ rr.rdlength
    go none e = sym e
    go (some bytes) e = e.0
