-- ===== src/Message/Wire/Write.antt =====
-- The writer of src/storage/message.c and the wire format of RFC 1035.
use native.Mathlib.Nat.{add_assoc, zero-add}
use baka_dns.Base.{
  ℕ, zero, suc, ◌+◌, ◌%◌, ◌^◌, ◌<◌, ◌≡◌, refl, sym, ap, ◌∙◌, Option, none, some, List, [], ◌∷◌,
  ◌++◌, map, append-nil, arith, length, length-append, leb, ◌==◌, if◌then◌else◌, ◌>>=◌, >>=_assoc,
  read_bytes, write_bytes, read_bytes-drop, write_bytes-append_list, write_byte-write_bytes, ==_ne,
  Bool-cases, inl, inr, drop, le→ltb, write_bytes-append, write_bytes-overflow, leb→le, leb-lt,
}
use baka_dns.Message.{MessageHeader, MessageQuestion, ResourceRecord, IntRet, ret}
use baka_dns.Message.Word.{u16h_to_u8n, u32h_to_u8n, htons_bytes, htonl_bytes}
use baka_dns.Message.Name.{strnlen, domain_len}
use baka_dns.Base.{All}
use baka_dns.Message.Name.Complete.{PlainByte}
use baka_dns.Message.Print.{
  msg_header_to_u8, question_fields_to_u8, msg_question_to_u8, rdata_to_u8, rr_fields_to_u8,
  msg_rr_to_u8, advance, add_size, written, elements_to_u8, section_to_u8, message_to_u8,
}
use baka_dns.Message.Wire.{
  WireMessage, header_of, array_of, message_of, rdata_bytes, encode_header, encode_question,
  encode_rr, encode_section, encode, rdata_bytes-length, IsName, IsQuestion, HoldsData, IsRecord,
  IsMessage,
}

pub strnlen-plain :
    (n : ℕ) (ls rest : List ℕ)
    → All PlainByte ls
    → length ls < n
    → strnlen n (ls ++ (0 ∷ rest)) ≡ some (length ls)
unfolding strnlen
strnlen-plain zero ls rest h lt = absurd (omega arith)
strnlen-plain (suc n) [] rest h lt = refl
strnlen-plain (suc n) (b ∷ ls) rest h lt = ground (arith, strnlen-plain n ls rest h.1)

-- A valid name is measured with its terminator.
pub domain_len-IsName : (name : List ℕ) → IsName name → domain_len name ≡ some (ret (length name))
unfolding domain_len
domain_len-IsName name h =
    let l : length name ≡ length h.labels + 1 =
      ap length h.terminated ∙ length-append h.labels (0 ∷ []) in
    rw (h.terminated, strnlen-plain 512 h.labels [] h.plain (omega (arith, h.short)), ◌>>=◌)
      (rw (le→ltb 255 (length h.labels + 1) (omega (arith, h.short)))
        (ap (λ n. some (ret n)) (sym (length-append h.labels (0 ∷ [])))))

pub read_bytes_whole : (bytes : List ℕ) → read_bytes bytes 0 (length bytes) ≡ some bytes
read_bytes_whole bytes = read_bytes-drop bytes 0 bytes [] (sym (append-nil bytes))

ruleset write_laws = (write_bytes-append_list, >>=_assoc, write_byte-write_bytes)

msg_header_to_u8-encode :
    (h : MessageHeader) (b : List ℕ) (p : ℕ)
    → msg_header_to_u8 h b p ≡ (write_bytes b p (encode_header h) >>= λ b'. some (b', 12))
unfolding msg_header_to_u8 encode_header u16h_to_u8n htons_bytes
msg_header_to_u8-encode h b p = simp write_laws

msg_question_to_u8-encode :
    (q : MessageQuestion) (b : List ℕ) (p : ℕ)
    → IsQuestion q
    → msg_question_to_u8 q b p
      ≡ (write_bytes b p (encode_question q) >>= λ b'. some (b', ret (length (encode_question q))))
unfolding msg_question_to_u8 encode_question u16h_to_u8n htons_bytes question_fields_to_u8
msg_question_to_u8-encode q b p h =
    rw (domain_len-IsName q.qname h.qname, ◌>>=◌)
      (rw (read_bytes_whole q.qname, ◌>>=◌) (simp (write_laws, length-append, add_assoc)))

rdata_to_u8-encode :
    (rr : ResourceRecord) (b : List ℕ) (p : ℕ)
    → IsRecord rr
    → rdata_to_u8 rr b p ≡ write_bytes b p (rdata_bytes rr.rdata)
unfolding rdata_to_u8 write_bytes
rdata_to_u8-encode rr b p h = go rr.rdata h.holds
  where
    go :
        (d : Option (List ℕ))
        → HoldsData rr.rdlength d
        → (if rr.rdlength == 0
            then some b
            else (d >>= λ rdata. read_bytes rdata 0 rr.rdlength >>= λ bytes. write_bytes b p bytes))
          ≡ write_bytes b p (rdata_bytes d)
    go none e = rw e
    go (some bytes) e =
        rw (==_ne rr.rdlength 0 (omega arith)) (rw (← e.0, read_bytes_whole bytes, ◌>>=◌))

-- The ten bytes of a record between its name and its data.
fixed_part :
    (n : ℕ) → 2 + (2 + (4 + (2 + n))) ≡ suc (suc (suc (suc (suc (suc (suc (suc (suc (suc n)))))))))
fixed_part n = omega arith

msg_rr_to_u8-encode :
    (rr : ResourceRecord) (b : List ℕ) (p : ℕ)
    → IsRecord rr
    → msg_rr_to_u8 rr b p
      ≡ (write_bytes b p (encode_rr rr) >>= λ b'. some (b', ret (length (encode_rr rr))))
unfolding msg_rr_to_u8 encode_rr u16h_to_u8n u32h_to_u8n htons_bytes htonl_bytes rr_fields_to_u8
msg_rr_to_u8-encode rr b p h =
    rw (domain_len-IsName rr.name h.name, ◌>>=◌)
      (rw (read_bytes_whole rr.name, ◌>>=◌)
        (simp (
          write_laws,
          length-append,
          rdata_bytes-length rr h,
          λ (c : List ℕ) (k : ℕ). rdata_to_u8-encode rr c k h,
          add_assoc,
          fixed_part,
        )))

module _ {A : Type 0} (to_u8 : A → List ℕ → ℕ → Option (List ℕ × IntRet)) (enc : A → List ℕ)
    (Valid : A → Type 0)
    (to_u8-enc : (a : A) (b : List ℕ) (p : ℕ)
      → Valid a
      → to_u8 a b p ≡ (write_bytes b p (enc a) >>= λ b'. some (b', ret (length (enc a))))) where
  elements_to_u8-encode :
      (xs : List A) (b : List ℕ) (p size : ℕ)
      → All Valid xs
      → size + length (encode_section enc xs) < 2 ^ 32
      → elements_to_u8 to_u8 (length xs) (map some xs) b p size ≡ (
          write_bytes b p (encode_section enc xs) >>= λ b'.
          some (
            written b'
              (p + length (encode_section enc xs))
              (size + length (encode_section enc xs))))
  unfolding elements_to_u8 encode_section write_bytes advance add_size
  elements_to_u8-encode [] b p size h lt = ground arith
  elements_to_u8-encode (x ∷ xs) b p size h lt =
      let n = length (enc x) in
      let l = length-append (enc x) (encode_section enc xs) in
      let e : (size + n) % 2 ^ 32 ≡ size + n = omega arith in
      let ih = λ (c : List ℕ). elements_to_u8-encode xs c (p + n) (size + n) h.1 (omega arith) in
      simp
        (to_u8-enc x b p h.0, write_bytes-append_list, >>=_assoc, length-append, e, ih, add_assoc)

  section_to_u8-encode :
      (xs : List A) (b : List ℕ) (p : ℕ)
      → All Valid xs
      → length (encode_section enc xs) < 2 ^ 32
      → section_to_u8 to_u8 (length xs) (array_of xs) b p ≡ (
          write_bytes b p (encode_section enc xs) >>= λ b'.
          some (written b' (p + length (encode_section enc xs)) (length (encode_section enc xs))))
  unfolding section_to_u8 encode_section write_bytes
  section_to_u8-encode [] b p h lt = ground arith
  section_to_u8-encode (x ∷ xs) b p h lt =
      rw (==_ne (suc (length xs)) 0 (omega arith))
        (elements_to_u8-encode (x ∷ xs) b p 0 h (omega arith) ∙ simp zero-add)

questions_to_u8 :
    (xs : List MessageQuestion) (b : List ℕ) (p : ℕ)
    → All IsQuestion xs
    → length (encode_section encode_question xs) < 2 ^ 32
    → section_to_u8 msg_question_to_u8 (length xs) (array_of xs) b p ≡ (
        write_bytes b p (encode_section encode_question xs) >>= λ b'. some (
          written b'
            (p + length (encode_section encode_question xs))
            (length (encode_section encode_question xs))))
questions_to_u8 =
    section_to_u8-encode msg_question_to_u8 encode_question IsQuestion msg_question_to_u8-encode

records_to_u8 :
    (xs : List ResourceRecord) (b : List ℕ) (p : ℕ)
    → All IsRecord xs
    → length (encode_section encode_rr xs) < 2 ^ 32
    → section_to_u8 msg_rr_to_u8 (length xs) (array_of xs) b p ≡ (
        write_bytes b p (encode_section encode_rr xs) >>= λ b'. some (
          written b'
            (p + length (encode_section encode_rr xs))
            (length (encode_section encode_rr xs))))
records_to_u8 = section_to_u8-encode msg_rr_to_u8 encode_rr IsRecord msg_rr_to_u8-encode

pub length-encode_header : (h : MessageHeader) → length (encode_header h) ≡ 12
unfolding encode_header htons_bytes
length-encode_header h = refl

-- `message_to_u8` on a valid message is one write of its wire format at the start of the buffer.
pub message_to_u8-write_bytes :
    (w : WireMessage) (dest : List ℕ)
    → IsMessage w
    → length (encode w) < 2 ^ 32
    → message_to_u8 (message_of w) dest
      ≡ (write_bytes dest 0 (encode w) >>= λ b. some (b, ret (length (encode w))))
unfolding message_to_u8 encode
message_to_u8-write_bytes w dest h lt =
    let q = encode_section encode_question w.questions in
    let a = encode_section encode_rr w.answers in
    let n = encode_section encode_rr w.authorities in
    let d = encode_section encode_rr w.additions in
    let hl = length-encode_header (header_of w) in
    let l1 = length-append (encode_header (header_of w)) (q ++ (a ++ (n ++ d))) in
    let l2 = length-append q (a ++ (n ++ d)) in
    let l3 = length-append a (n ++ d) in
    let l4 = length-append n d in
    let e1 = λ (b : List ℕ) (p : ℕ). questions_to_u8 w.questions b p h.questions (omega arith) in
    let e2 = λ (b : List ℕ) (p : ℕ). records_to_u8 w.answers b p h.answers (omega arith) in
    let e3 = λ (b : List ℕ) (p : ℕ). records_to_u8 w.authorities b p h.authorities (omega arith) in
    let e4 = λ (b : List ℕ) (p : ℕ). records_to_u8 w.additions b p h.additions (omega arith) in
    let e : (12 + (length q + (length a + (length n + length d)))) % 2 ^ 32
        ≡ 12 + (length q + (length a + (length n + length d))) =
      omega arith in
    simp (
      msg_header_to_u8-encode, e1, e2, e3, e4, e, write_bytes-append_list, >>=_assoc, length-append,
      hl, zero-add, add_assoc,
    )

-- `message_to_u8` on a valid message: with room in the buffer, it holds exactly the wire format and
-- is unchanged behind it, and the result is the number of bytes written; with less room the writer
-- leaves the buffer.
pub message_to_u8-encode :
    (w : WireMessage) (dest : List ℕ)
    → IsMessage w
    → length (encode w) < 2 ^ 32
    → message_to_u8 (message_of w) dest ≡ (
        if leb (length (encode w)) (length dest)
        then some (encode w ++ drop (length (encode w)) dest, ret (length (encode w)))
        else none)
message_to_u8-encode w dest h lt = elim (Bool-cases (leb (length (encode w)) (length dest))) [
  | inl room ↦
      message_to_u8-write_bytes w dest h lt
      ∙ rw (room, write_bytes-append [] (encode w) dest 0 refl (leb→le _ _ room), ◌>>=◌)
  | inr full ↦
      message_to_u8-write_bytes w dest h lt
      ∙ rw (
        full,
        write_bytes-overflow [] (encode w) dest 0 refl (omega (arith, leb-lt _ _ full)),
        ◌>>=◌,
      )
]
