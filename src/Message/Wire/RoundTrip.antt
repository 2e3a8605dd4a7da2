-- ===== src/Message/Wire/RoundTrip.antt =====
-- Whole messages: the reader of src/storage/message.c on the wire format, and on what the writer wrote.
use baka_dns.Base.{
  ℕ, ◌+◌, ◌^◌, ◌≤◌, ◌<◌, ◌≡◌, refl, sym, ap, ◌∙◌, none, some, List, [], ◌∷◌, ◌++◌, append_assoc,
  arith, length, length-append, ◌>>=◌, drop, le→ltb, le→leb, drop-skip,
}
use baka_dns.Message.{Message, MessageHeader, ret}
use baka_dns.Message.Word.{htons_bytes, u8n_to_u8h-drop, u8n_to_u16h-htons_bytes}
use baka_dns.Message.Parse.{
  msg_header_from_buf, msg_question_from_buf, msg_rr_from_buf, sections_from_buf, message_from_buf,
}
use baka_dns.Message.Print.{message_to_u8}
use baka_dns.Message.Wire.{
  WireMessage, header_of, message_of, encode_header, encode_question, encode_rr, encode_section,
  encode, IsQuestion, IsRecord, IsMessage,
}
use baka_dns.Message.Wire.Write.{message_to_u8-encode, length-encode_header}
use baka_dns.Message.Wire.Read.{
  msg_question_from_buf-encode, msg_rr_from_buf-encode, section_from_buf-encode,
}

msg_header_from_buf-encode :
    (w : WireMessage) (base rest : List ℕ)
    → IsMessage w
    → base ≡ encode_header (header_of w) ++ rest
    → msg_header_from_buf base 0 ≡ some (header_of w)
unfolding msg_header_from_buf encode_header htons_bytes
msg_header_from_buf-encode w base rest v here =
    let e0 : drop 0 base ≡ _ = here in
    let e2 = drop-skip base 0 (htons_bytes w.id) _ e0 in
    let e3 = drop-skip base 2 (w.misc1 ∷ []) _ e2 in
    let e4 = drop-skip base 3 (w.misc2 ∷ []) _ e3 in
    let e6 = drop-skip base 4 (htons_bytes (length w.questions)) _ e4 in
    let e8 = drop-skip base 6 (htons_bytes (length w.answers)) _ e6 in
    let e10 = drop-skip base 8 (htons_bytes (length w.authorities)) _ e8 in
    rw (u8n_to_u16h-htons_bytes base 0 w.id _ v.id e0, ◌>>=◌)
      (rw (u8n_to_u8h-drop base 2 w.misc1 _ e2, ◌>>=◌)
        (rw (u8n_to_u8h-drop base 3 w.misc2 _ e3, ◌>>=◌)
          (rw (u8n_to_u16h-htons_bytes base 4 (length w.questions) _ v.qdcount e4, ◌>>=◌)
            (rw (u8n_to_u16h-htons_bytes base 6 (length w.answers) _ v.ancount e6, ◌>>=◌)
              (rw (u8n_to_u16h-htons_bytes base 8 (length w.authorities) _ v.nscount e8, ◌>>=◌)
                (rw (
                  u8n_to_u16h-htons_bytes base 10 (length w.additions) rest v.arcount e10,
                  ◌>>=◌,
                )))))))

-- A `struct message` whose four arrays are NULL.
abbrev pub blank : MessageHeader → Message
blank h = record { header = h; question = none; answer = none; authority = none; addition = none }

abbrev pub zero_header : MessageHeader
zero_header = record {
  id = 0;
  misc1 = 0;
  misc2 = 0;
  qdcount = 0;
  ancount = 0;
  nscount = 0;
  arcount = 0;
}

-- A zeroed `struct message`.
abbrev pub empty_message : Message
empty_message = blank zero_header

sections_from_buf-encode :
    (h : MessageHeader) (fuel : ℕ) (w : WireMessage) (base rest : List ℕ)
    → IsMessage w
    → 255 ≤ fuel
    → base ≡ encode w ++ rest
    → sections_from_buf fuel base (header_of w) (blank h) ≡ some (ret 1, message_of w)
unfolding sections_from_buf encode encode_header htons_bytes
sections_from_buf-encode h fuel w base rest v enough here =
    let hd = encode_header (header_of w) in
    let q = encode_section encode_question w.questions in
    let a = encode_section encode_rr w.answers in
    let n = encode_section encode_rr w.authorities in
    let d = encode_section encode_rr w.additions in
    let e0 : drop 0 base ≡ hd ++ (q ++ (a ++ (n ++ (d ++ rest)))) = here ∙ simp append_assoc in
    let e1 : drop 12 base ≡ q ++ (a ++ (n ++ (d ++ rest))) =
      ap (λ k. drop k base) (sym (length-encode_header (header_of w))) ∙ drop-skip base 0 hd _ e0 in
    let e2 = drop-skip base 12 q _ e1 in
    let e3 = drop-skip base (12 + length q) a _ e2 in
    let e4 = drop-skip base (12 + length q + length a) n _ e3 in
    let rrs = λ (p : ℕ) (rest' : List ℕ). msg_rr_from_buf-encode fuel base p rest' enough in
    rw
      (
        section_from_buf-encode (msg_question_from_buf fuel base) encode_question IsQuestion base
            (λ p r. msg_question_from_buf-encode fuel base p r enough) w.questions 12 _ v.questions
            e1,
        ◌>>=◌,
      )
      (rw
        (
          section_from_buf-encode (msg_rr_from_buf fuel base) encode_rr IsRecord base rrs w.answers
              _ _ v.answers e2,
          ◌>>=◌,
        )
        (rw
          (
            section_from_buf-encode (msg_rr_from_buf fuel base) encode_rr IsRecord base rrs
                w.authorities _ _ v.authorities e3,
            ◌>>=◌,
          )
          (rw (
            section_from_buf-encode (msg_rr_from_buf fuel base) encode_rr IsRecord base rrs
                w.additions _ _ v.additions e4,
            ◌>>=◌,
          ))))

pub message_from_buf-blank :
    (fuel : ℕ) (w : WireMessage) (rest : List ℕ) (size : ℕ) (h : MessageHeader)
    → IsMessage w
    → 255 ≤ fuel
    → length (encode w) ≤ size
    → message_from_buf fuel (encode w ++ rest) size (blank h) ≡ some (ret 1, message_of w)
unfolding message_from_buf encode
message_from_buf-blank fuel w rest size h v enough fits =
    let hd = encode_header (header_of w) in
    let body =
      encode_section encode_question w.questions
      ++ (encode_section encode_rr w.answers
          ++ (encode_section encode_rr w.authorities ++ encode_section encode_rr w.additions)) in
    let l = length-append hd body in
    let k = length-encode_header (header_of w) in
    rw (le→ltb size 12 (omega arith)) (
      rw
        (
          msg_header_from_buf-encode w (encode w ++ rest) (body ++ rest) v
              (append_assoc hd body rest),
          ◌>>=◌,
        )
        (rw v.whole (sections_from_buf-encode h fuel w (encode w ++ rest) rest v enough refl)))

-- `message_from_buf` into a zeroed message, at a packet that begins with the wire format of a valid
-- message, returns 1 and exactly that message, with fuel for the 255 bytes of a longest name.
pub message_from_buf-encode :
    (fuel : ℕ) (w : WireMessage) (rest : List ℕ) (size : ℕ)
    → IsMessage w
    → 255 ≤ fuel
    → length (encode w) ≤ size
    → message_from_buf fuel (encode w ++ rest) size empty_message ≡ some (ret 1, message_of w)
message_from_buf-encode fuel w rest size v enough fits =
    message_from_buf-blank fuel w rest size zero_header v enough fits

-- Writing a valid message with `message_to_u8` and reading the buffer with `message_from_buf` gives
-- the message back, if the buffer has room for it: `message_to_u8` returns the number `n` of the
-- bytes written, and `message_from_buf` on the buffer with this size returns 1 and the message.
pub message_from_buf-message_to_u8 :
    (fuel : ℕ) (w : WireMessage) (dest : List ℕ)
    → IsMessage w
    → 255 ≤ fuel
    → length (encode w) ≤ length dest
    → length dest < 2 ^ 32
    → (buf : List ℕ) × (n : ℕ) × (message_to_u8 (message_of w) dest ≡ some (buf, ret n))
      × (message_from_buf fuel buf n empty_message ≡ some (ret 1, message_of w))
message_from_buf-message_to_u8 fuel w dest v enough room small =
    let n = length (encode w) in
    (
      encode w ++ drop n dest,
      n,
      message_to_u8-encode w dest v (omega arith) ∙ rw (le→leb n (length dest) room),
      message_from_buf-encode fuel w (drop n dest) n v enough (omega arith),
    )
