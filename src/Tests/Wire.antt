-- ===== src/Tests/Wire.antt =====
-- The message codec of src/storage/message.c on a query with one answer, and the header flags.
use baka_dns.Base.{
  ℕ, ◌+◌, ◌*◌, ◌≡◌, refl, none, some, List, [], ◌∷◌, ◌++◌, length, length-zeroed, zeroed, drop, leb,
  if◌then◌else◌, arith,
}
use baka_dns.Message.{MessageQuestion, ResourceRecord, Message, IntRet, ret, minus_one}
use baka_dns.Message.Flags.{create_misc1, qr_of, opcode_of, aa_of, tc_of, rd_of}
use baka_dns.Message.Flags.Layout.{create_misc1_fields}
use baka_dns.Message.Record.{rr_cmp, block_of, construct_error_response}
use baka_dns.Message.Wire.ErrorResponse.{message_to_u8-construct_error_response}
use baka_dns.Message.Record.Compare.{Decides, until_zero, rr_cmp-Decides}
use baka_dns.Base.{true}
use baka_dns.Message.Parse.{message_from_buf}
use baka_dns.Message.Print.{message_to_u8}
use baka_dns.Message.Wire.{
  WireMessage, message_of, encode, IsName, IsQuestion, IsRecord, IsMessage, opaque_data,
}
use baka_dns.Message.Wire.Write.{message_to_u8-encode}
use baka_dns.Message.Wire.RoundTrip.{
  empty_message, message_from_buf-encode, message_from_buf-message_to_u8,
}

abbrev labels : List ℕ
labels = 2 ∷ 97 ∷ 98 ∷ 1 ∷ 99 ∷ []

abbrev question : MessageQuestion
question = record { qname = labels ++ (0 ∷ []); qtype = 1; qclass = 1 }

abbrev answer : ResourceRecord
answer = record {
  name = labels ++ (0 ∷ []);
  type = 1;
  class = 1;
  ttl = 300;
  rdlength = 4;
  rdata = some (10 ∷ 0 ∷ 0 ∷ 1 ∷ []);
}

abbrev response : WireMessage
response = record {
  id = 258;
  misc1 = 129;
  misc2 = 128;
  questions = question ∷ [];
  answers = answer ∷ [];
  authorities = [];
  additions = [];
}

name_lem : IsName (labels ++ (0 ∷ []))
name_lem = record { labels = labels; terminated = refl; plain = omega arith; short = omega arith }

-- A query for ab.c with its answer.
response-IsMessage : IsMessage response
unfolding tc_of
response-IsMessage = record {
  id = omega arith;
  whole = refl;
  qdcount = omega arith;
  ancount = omega arith;
  nscount = omega arith;
  arcount = omega arith;
  questions = (record { qname = name_lem; qtype = omega arith; qclass = omega arith }, tt);
  answers = (
    record {
      name = name_lem;
      type = omega arith;
      class = omega arith;
      ttl = omega arith;
      rdlength = omega arith;
      holds = (refl, omega arith);
      rdata = opaque_data refl refl refl (omega arith);
    },
    tt,
  );
  authorities = tt;
  additions = tt;
}

encode_bytes :
    encode response
    ≡ 1 ∷ 2 ∷ 129 ∷ 128 ∷ 0 ∷ 1 ∷ 0 ∷ 1 ∷ 0 ∷ 0 ∷ 0 ∷ 0 ∷ 2 ∷ 97 ∷ 98 ∷ 1 ∷ 99 ∷ 0 ∷ 0 ∷ 1 ∷ 0 ∷ 1
      ∷ 2 ∷ 97 ∷ 98 ∷ 1 ∷ 99 ∷ 0 ∷ 0 ∷ 1 ∷ 0 ∷ 1 ∷ 0 ∷ 0 ∷ 1 ∷ 44 ∷ 0 ∷ 4 ∷ 10 ∷ 0 ∷ 0 ∷ 1 ∷ []
unfolding encode baka_dns.Message.Wire.encode_header baka_dns.Message.Word.htons_bytes
    baka_dns.Message.Wire.encode_section baka_dns.Message.Wire.encode_question
    baka_dns.Message.Wire.encode_rr baka_dns.Message.Word.htonl_bytes
encode_bytes = refl

length-response : length (encode response) ≡ 42
length-response = rw encode_bytes refl

message_to_u8-encode_example : message_to_u8 (message_of response) (zeroed 42) ≡ (
    if leb (length (encode response)) (length (zeroed 42))
    then some (
      encode response ++ drop (length (encode response)) (zeroed 42),
      ret (length (encode response)),
    )
    else none)
message_to_u8-encode_example =
    message_to_u8-encode response (zeroed 42) response-IsMessage (omega (arith, length-response))

message_from_buf-encode_example :
    message_from_buf 255 (encode response ++ (7 ∷ [])) 43 empty_message
    ≡ some (ret 1, message_of response)
message_from_buf-encode_example =
    message_from_buf-encode 255 response (7 ∷ []) 43 response-IsMessage (omega arith)
      (omega (arith, length-response))

message_from_buf-message_to_u8_example :
    (buf : List ℕ) × (n : ℕ) × (message_to_u8 (message_of response) (zeroed 64) ≡ some (buf, ret n))
    × (message_from_buf 255 buf n empty_message ≡ some (ret 1, message_of response))
message_from_buf-message_to_u8_example =
    message_from_buf-message_to_u8 255 response (zeroed 64) response-IsMessage (omega arith)
      (omega (arith, length-response, length-zeroed 64)) (omega (arith, length-zeroed 64))

create_misc1_fields_example :
    let x = create_misc1 1 0 1 0 1 in
    (x ≡ 1 * 128 + 0 * 8 + 1 * 4 + 0 * 2 + 1)
    × (qr_of x ≡ 1)
    × (opcode_of x ≡ 0)
    × (aa_of x ≡ 1)
    × (tc_of x ≡ 0)
    × (rd_of x ≡ 1)
create_misc1_fields_example =
    create_misc1_fields 1 0 1 0 1 (omega arith) (omega arith) (omega arith) (omega arith)
      (omega arith)

-- The address 10.0.0.2, which differs behind the first zero byte.
abbrev neighbour : ResourceRecord
neighbour = record answer { rdata = some (10 ∷ 0 ∷ 0 ∷ 2 ∷ []) }

rr_cmp-neighbour : rr_cmp answer neighbour ≡ some true
unfolding rr_cmp baka_dns.Message.Name.domain_len baka_dns.Message.Name.strnlen
    baka_dns.Message.Name.strncmp_eq
rr_cmp-neighbour = refl

rr_cmp-Decides_example :
    Decides
      (((answer.name ≡ neighbour.name)
          × (answer.rdlength ≡ neighbour.rdlength)
          × (answer.type ≡ neighbour.type)
          × (answer.class ≡ neighbour.class))
        × (until_zero (block_of answer.rdata) ≡ until_zero (block_of neighbour.rdata)))
      (rr_cmp answer neighbour)
rr_cmp-Decides_example =
    rr_cmp-Decides answer neighbour name_lem name_lem (refl, omega arith) (refl, omega arith)

-- The response code NOTIMP.
message_to_u8-construct_error_response_example :
    message_to_u8 (construct_error_response 4) (zeroed 20)
    ≡ some (
      (0 ∷ 0 ∷ 132 ∷ (128 + 4) ∷ 0 ∷ 0 ∷ 0 ∷ 0 ∷ 0 ∷ 0 ∷ 0 ∷ 0 ∷ []) ++ drop 12 (zeroed 20),
      ret 12,
    )
message_to_u8-construct_error_response_example =
    message_to_u8-construct_error_response 4 (zeroed 20) (omega arith)
      (omega (arith, length-zeroed 20))
