-- ===== src/Message/Wire/Read.antt =====
-- The reader of src/storage/message.c on the wire format of RFC 1035, anywhere in a packet.
use baka_dns.Base.{
  ℕ, suc, ◌+◌, ◌-◌, ◌%◌, ◌^◌, ◌≤◌, ◌<◌, ◌≡◌, refl, sym, ap, ap₂, ◌∙◌, true, false, Option, none,
  some, List, [], ◌∷◌, ◌++◌, map, append_assoc, arith, length, length-append, ◌==◌, if◌then◌else◌,
  ◌>>=◌, read_bytes, read_bytes-drop, ==_ne, drop, write_bytes-append, zeroed, length-zeroed,
  zeroed-suc, drop-zeroed, drop-skip, subst,
}
use baka_dns.Message.{MessageQuestion, ResourceRecord, rrtype_soa, rrtype_mx}
use baka_dns.Message.Word.{
  htons_bytes, htonl_bytes, u8n_to_u16h-htons_bytes, u8n_to_u32h-htonl_bytes,
}
use baka_dns.Message.Name.{read_domain}
use baka_dns.Base.{All}
use baka_dns.Message.Name.Complete.{plain-Decodes, steps-plain-Decodes, read_domain_complete}
use baka_dns.Message.Parse.{
  msg_question_from_buf, mx_rdata, domain_rdata, plain_rdata, is_domain_type, rdata_from_buf,
  msg_rr_from_buf, section_from_buf,
}
use baka_dns.Message.Wire.{
  rdata_bytes, encode_question, encode_rr, encode_section, rdata_bytes-length, IsName, IsQuestion,
  HoldsData, IsData, opaque_data, name_data, mx_data, IsRecord,
}

-- Behind a name that was copied into a zeroed array stands its terminator.
zeroed-tail : (n k : ℕ) → k < n → drop k (zeroed n) ≡ 0 ∷ zeroed (n - k - 1)
zeroed-tail n k h =
    let e : n - k ≡ suc (n - k - 1) = omega arith in
    drop-zeroed k n (omega arith) ∙ ap zeroed e ∙ zeroed-suc (n - k - 1)

-- `read_domain` at a name with no pointer, into an array that is zeroed from `d` on: the name stands
-- there with its terminator.
module _ (fuel : ℕ) (base : List ℕ) (p : ℕ) (name rest : List ℕ) (v : IsName name)
    (enough : 255 ≤ fuel) (here : drop p base ≡ name ++ rest) where
  name_at : drop p base ≡ v.labels ++ (0 ∷ rest)
  name_at = here ∙ ap (λ (l : List ℕ). l ++ rest) v.terminated ∙ append_assoc v.labels (0 ∷ []) rest

  pub read_domain-name :
      (done : List ℕ) (n : ℕ)
      → 255 ≤ n
      → read_domain fuel base p (done ++ zeroed n) (length done)
        ≡ some (record {
          dest = (done ++ name) ++ zeroed (n - length v.labels - 1);
          len = length name;
          offset = length name;
        })
  read_domain-name done n room =
      let D = plain-Decodes base v.labels rest p v.plain name_at in
      let s = steps-plain-Decodes base v.labels rest p v.plain name_at in
      let k = length v.labels in
      let w =
        write_bytes-append done v.labels (zeroed n) (length done) refl
          (omega (arith, v.short, length-zeroed n)) in
      let l : length name ≡ k + 1 = ap length v.terminated ∙ length-append v.labels (0 ∷ []) in
      let t : (done ++ v.labels) ++ drop k (zeroed n) ≡ (done ++ name) ++ zeroed (n - k - 1) =
        rw (zeroed-tail n k (omega (arith, v.short)), v.terminated) (simp append_assoc) in
      read_domain_complete D fuel (done ++ zeroed n) _ (length done) (omega (arith, v.short)) w
      ∙ rw (t, l) (ground arith)

length-IsName : (name : List ℕ) (v : IsName name) → length name ≤ 255
length-IsName name v =
    omega (arith, ap length v.terminated, length-append v.labels (0 ∷ []), v.short)

-- The first `n` bytes of an array that begins with them.
read_bytes_front : (bytes more : List ℕ) → read_bytes (bytes ++ more) 0 (length bytes) ≡ some bytes
read_bytes_front bytes more = read_bytes-drop (bytes ++ more) 0 bytes more refl

domain_type_others :
    (type : ℕ)
    → is_domain_type type ≡ true
    → ((type == rrtype_soa) ≡ false) × ((type == rrtype_mx) ≡ false)
domain_type_others type d = ground arith

module _ (fuel : ℕ) (base : List ℕ) (p : ℕ) (rest : List ℕ) (enough : 255 ≤ fuel) where
  pub msg_question_from_buf-encode :
      (q : MessageQuestion)
      → IsQuestion q
      → drop p base ≡ encode_question q ++ rest
      → msg_question_from_buf fuel base p ≡ some (q, length (encode_question q))
  unfolding msg_question_from_buf encode_question htons_bytes
  msg_question_from_buf-encode q v here =
      let t = htons_bytes q.qtype in
      let c = htons_bytes q.qclass in
      let n = length q.qname in
      let e0 : drop p base ≡ q.qname ++ (t ++ (c ++ rest)) =
        here ∙ append_assoc q.qname (t ++ c) rest in
      let e1 = drop-skip base p q.qname (t ++ (c ++ rest)) e0 in
      let e2 = drop-skip base (p + n) t (c ++ rest) e1 in
      let r =
        read_domain-name fuel base p q.qname (t ++ (c ++ rest)) v.qname enough e0 [] 512
          (omega arith) in
      rw (r, ◌>>=◌)
        (rw (read_bytes_front q.qname _, ◌>>=◌)
          (rw (u8n_to_u16h-htons_bytes base (p + n) q.qtype (c ++ rest) v.qtype e1, ◌>>=◌)
            (rw (u8n_to_u16h-htons_bytes base (p + n + 2) q.qclass rest v.qclass e2, ◌>>=◌)
              (let l : n + 2 + 2 ≡ length (encode_question q) =
                  omega (arith, length-append q.qname (t ++ c)) in
                ap (λ k. some (q, k)) l))))

  -- What the data of a record leaves in `rrbuf`, and the number of its bytes.
  Data : ℕ → ℕ → List ℕ → Type 0
  Data type rdlength bytes =
      (more : List ℕ) × (rdata_from_buf fuel base p type rdlength
        ≡ some (bytes ++ more, length bytes))

  plain_rdata-encode :
      (type : ℕ) (bytes : List ℕ)
      → (type == rrtype_soa) ≡ false
      → (type == rrtype_mx) ≡ false
      → is_domain_type type ≡ false
      → length bytes ≤ 512
      → drop p base ≡ bytes ++ rest
      → Data type (length bytes) bytes
  unfolding Data rdata_from_buf plain_rdata
  plain_rdata-encode type bytes s m d short here = (
    drop (length bytes) (zeroed 512),
    rw (s, m, d)
        (rw (read_bytes-drop base p bytes rest here, ◌>>=◌)
          (rw (
            write_bytes-append [] bytes (zeroed 512) 0 refl (omega (arith, length-zeroed 512)),
            ◌>>=◌,
          ))),
  )

  name_rdata-encode :
      (type rdlength : ℕ) (name : List ℕ)
      → is_domain_type type ≡ true
      → IsName name
      → length name < 2 ^ 16
      → drop p base ≡ name ++ rest
      → Data type rdlength name
  unfolding Data rdata_from_buf domain_rdata
  name_rdata-encode type rdlength name d v small here =
      let (s, m) = domain_type_others type d in
      let e : length name % 2 ^ 16 ≡ length name = omega arith in
      (
        zeroed (512 - length v.labels - 1),
        rw (s, m, d)
            (rw (read_domain-name fuel base p name rest v enough here [] 512 (omega arith), ◌>>=◌)
              (rw e)),
      )

  mx_rdata-encode :
      (rdlength high low : ℕ) (exchange : List ℕ)
      → IsName exchange
      → length exchange < 1000
      → drop p base ≡ high ∷ low ∷ (exchange ++ rest)
      → Data rrtype_mx rdlength (high ∷ low ∷ exchange)
  unfolding Data rdata_from_buf mx_rdata
  mx_rdata-encode rdlength high low exchange v small here =
      let pre = high ∷ low ∷ [] in
      let e : (length exchange + 2) % 2 ^ 16 ≡ suc (suc (length exchange)) = omega arith in
      let w = write_bytes-append [] pre (zeroed 512) 0 refl (omega (arith, length-zeroed 512)) in
      let z = drop-zeroed 2 512 (omega arith) in
      let here' = drop-skip base p pre (exchange ++ rest) here in
      (
        zeroed (510 - length v.labels - 1),
        rw (read_bytes-drop base p pre (exchange ++ rest) here, ◌>>=◌)
            (rw (w, ◌>>=◌)
              (rw z (
                rw
                  (
                    read_domain-name fuel base (p + 2) exchange rest v enough here' pre 510
                        (omega arith),
                    ◌>>=◌,
                  )
                  (rw e)))),
      )

  rdata_from_buf-encode :
      (rr : ResourceRecord)
      → IsRecord rr
      → drop p base ≡ rdata_bytes rr.rdata ++ rest
      → Data rr.type rr.rdlength (rdata_bytes rr.rdata)
  rdata_from_buf-encode rr v here = go v.rdata
    where
      bytes : List ℕ
      bytes = rdata_bytes rr.rdata

      l : length bytes ≡ rr.rdlength
      l = rdata_bytes-length rr v

      go : IsData rr → Data rr.type rr.rdlength bytes
      go (opaque_data s m d short) =
          subst (λ k. Data rr.type k bytes) l
            (plain_rdata-encode rr.type bytes s m d (omega (arith, l)) here)
      go (name_data d n) =
          name_rdata-encode rr.type rr.rdlength bytes d n (omega (arith, l, v.rdlength)) here
      go (mx_data high low exchange t e n) =
          subst (λ k. Data k rr.rdlength bytes) (sym t)
            (subst (Data rrtype_mx rr.rdlength) (sym e) (
              mx_rdata-encode rr.rdlength high low exchange n
                (omega (arith, length-IsName exchange n))
                (here ∙ ap (λ (b : List ℕ). b ++ rest) e)))

rdata_field :
    (n : ℕ) (d : Option (List ℕ))
    → HoldsData n d
    → (if length (rdata_bytes d) == 0 then none else some (rdata_bytes d)) ≡ d
rdata_field n none h = refl
rdata_field n (some bytes) h = rw (==_ne (length bytes) 0 (omega arith))

pub msg_rr_from_buf-encode :
    (fuel : ℕ) (base : List ℕ) (p : ℕ) (rest : List ℕ)
    → 255 ≤ fuel
    → (rr : ResourceRecord) → IsRecord rr
    → drop p base ≡ encode_rr rr ++ rest
    → msg_rr_from_buf fuel base p ≡ some (rr, length (encode_rr rr))
unfolding msg_rr_from_buf encode_rr htons_bytes htonl_bytes Data
msg_rr_from_buf-encode fuel base p rest enough rr v here =
    let t = htons_bytes rr.type in
    let c = htons_bytes rr.class in
    let l = htonl_bytes rr.ttl in
    let k = htons_bytes rr.rdlength in
    let d = rdata_bytes rr.rdata in
    let n = length rr.name in
    let e0 : drop p base ≡ rr.name ++ (t ++ (c ++ (l ++ (k ++ (d ++ rest))))) =
      here ∙ append_assoc rr.name (t ++ (c ++ (l ++ (k ++ d)))) rest in
    let e1 = drop-skip base p rr.name _ e0 in
    let e2 = drop-skip base (p + n) t _ e1 in
    let e3 = drop-skip base (p + n + 2) c _ e2 in
    let e4 = drop-skip base (p + n + 2 + 2) l _ e3 in
    let e5 = drop-skip base (p + n + 2 + 2 + 4) k _ e4 in
    let (more, x) = rdata_from_buf-encode fuel base (p + n + 2 + 2 + 4 + 2) rest enough rr v e5 in
    let r = read_domain-name fuel base p rr.name _ v.name enough e0 [] 512 (omega arith) in
    let q : length d ≡ rr.rdlength = rdata_bytes-length rr v in
    let same : ◌≡◌ {A = ResourceRecord}
        (record rr { rdlength = length d; rdata = if length d == 0 then none else some d }) rr =
      rw (rdata_field rr.rdlength rr.rdata v.holds, q) in
    let size : n + 2 + 2 + 4 + 2 + rr.rdlength ≡ length (encode_rr rr) =
      omega (arith, q, length-append rr.name (t ++ (c ++ (l ++ (k ++ d))))) in
    rw (r, ◌>>=◌)
      (rw (read_bytes_front rr.name _, ◌>>=◌)
        (rw (u8n_to_u16h-htons_bytes base (p + n) rr.type _ v.type e1, ◌>>=◌)
          (rw (u8n_to_u16h-htons_bytes base (p + n + 2) rr.class _ v.class e2, ◌>>=◌)
            (rw (u8n_to_u32h-htonl_bytes base (p + n + 2 + 2) rr.ttl _ v.ttl e3, ◌>>=◌)
              (rw
                (
                  u8n_to_u16h-htons_bytes base (p + n + 2 + 2 + 4) rr.rdlength _ v.rdlength e4,
                  ◌>>=◌,
                )
                (rw (x, ◌>>=◌)
                  (rw (read_bytes_front d more, ◌>>=◌)
                    (ap₂ (λ (a : ResourceRecord) (m : ℕ). some (a, m)) same size))))))))

-- The loop over a section reads back its elements.
module _ {A : Type 0} (from_buf : ℕ → Option (A × ℕ)) (enc : A → List ℕ) (Valid : A → Type 0)
    (base : List ℕ)
    (from_buf-enc : (p : ℕ) (rest : List ℕ) (a : A)
      → Valid a
      → drop p base ≡ enc a ++ rest
      → from_buf p ≡ some (a, length (enc a))) where
  pub section_from_buf-encode :
      (xs : List A) (p : ℕ) (rest : List ℕ)
      → All Valid xs
      → drop p base ≡ encode_section enc xs ++ rest
      → section_from_buf from_buf (length xs) p
        ≡ some (map some xs, p + length (encode_section enc xs))
  unfolding section_from_buf encode_section
  section_from_buf-encode [] p rest h here = ground arith
  section_from_buf-encode (x ∷ xs) p rest h here =
      let e0 = here ∙ append_assoc (enc x) (encode_section enc xs) rest in
      let e1 = drop-skip base p (enc x) (encode_section enc xs ++ rest) e0 in
      let ih = section_from_buf-encode xs (p + length (enc x)) rest h.1 e1 in
      let l : p + length (enc x) + length (encode_section enc xs)
          ≡ p + length (enc x ++ encode_section enc xs) =
        omega (arith, length-append (enc x) (encode_section enc xs)) in
      rw (from_buf-enc p (encode_section enc xs ++ rest) x h.0 e0, ◌>>=◌)
        (rw (ih, ◌>>=◌) (ap (λ k. some (some x ∷ map some xs, k)) l))
