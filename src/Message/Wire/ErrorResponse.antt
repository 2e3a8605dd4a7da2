-- ===== src/Message/Wire/ErrorResponse.antt =====
-- `construct_error_response` of src/storage/message.c on the wire.
use baka_dns.Base.{
  ℕ, ◌+◌, ◌^◌, ◌≤◌, ◌<◌, ◌≡◌, refl, ◌∙◌, some, List, [], ◌∷◌, ◌++◌, length, drop, arith, le→leb,
}
use baka_dns.Message.{ret}
use baka_dns.Message.Word.{htons_bytes}
use baka_dns.Message.Flags.{create_misc1, create_misc2, tc_of}
use baka_dns.Message.Flags.Layout.{create_misc2_fields}
use baka_dns.Message.Record.{construct_error_response}
use baka_dns.Message.Print.{message_to_u8}
use baka_dns.Message.Wire.{WireMessage, encode, encode_header, encode_section, IsMessage}
use baka_dns.Message.Wire.Write.{message_to_u8-encode}

abbrev error_message : ℕ → WireMessage
error_message rcode = record {
  id = 0;
  misc1 = create_misc1 1 0 1 0 0;
  misc2 = create_misc2 1 0 rcode;
  questions = [];
  answers = [];
  authorities = [];
  additions = [];
}

error_message-IsMessage : (rcode : ℕ) → IsMessage (error_message rcode)
unfolding tc_of create_misc1
error_message-IsMessage rcode = record {
  id = omega arith;
  whole = refl;
  qdcount = omega arith;
  ancount = omega arith;
  nscount = omega arith;
  arcount = omega arith;
  questions = tt;
  answers = tt;
  authorities = tt;
  additions = tt;
}

error_message-encode :
    (rcode : ℕ)
    → rcode < 16
    → encode (error_message rcode)
      ≡ 0 ∷ 0 ∷ 132 ∷ (128 + rcode) ∷ 0 ∷ 0 ∷ 0 ∷ 0 ∷ 0 ∷ 0 ∷ 0 ∷ 0 ∷ []
unfolding encode encode_header encode_section htons_bytes create_misc1
error_message-encode rcode h =
    let byte : create_misc2 1 0 rcode ≡ 128 + rcode =
      (create_misc2_fields 1 0 rcode (omega arith) (omega arith) h).0 ∙ omega arith in
    rw byte refl

-- What `construct_error_response` makes for a four-bit response code is written as a header alone: a
-- response with the authoritative and the recursion flag, the code, no id, and no section. The
-- buffer behind it is unchanged.
pub message_to_u8-construct_error_response :
    (rcode : ℕ) (dest : List ℕ)
    → rcode < 16
    → 12 ≤ length dest
    → message_to_u8 (construct_error_response rcode) dest
      ≡ some (
        (0 ∷ 0 ∷ 132 ∷ (128 + rcode) ∷ 0 ∷ 0 ∷ 0 ∷ 0 ∷ 0 ∷ 0 ∷ 0 ∷ 0 ∷ []) ++ drop 12 dest,
        ret 12,
      )
unfolding construct_error_response
message_to_u8-construct_error_response rcode dest h room =
    let bytes = error_message-encode rcode h in
    let small : length (encode (error_message rcode)) < 2 ^ 32 = rw bytes (omega arith) in
    message_to_u8-encode (error_message rcode) dest (error_message-IsMessage rcode) small
    ∙ rw (bytes, le→leb 12 (length dest) room) refl
