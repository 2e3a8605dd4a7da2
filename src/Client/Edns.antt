-- ===== src/Client/Edns.antt =====
-- The `edns support` of src/socket/client.c on complete messages.
use baka_dns.Base.{
  ℕ, suc, ◌+◌, ◌%◌, ◌^◌, ◌<◌, ◌≡◌, refl, sym, ap, ◌∙◌, none, some, List, [], ◌∷◌, ◌++◌, map,
  map-append, ◌==◌, ==_ne, if◌then◌else◌, ◌>>=◌, length, length-append, set, take, read_bytes,
  arith, Bool-cases, inl, inr, ◌⊎◌, ap₂,
}
use baka_dns.Message.{ResourceRecord, Message, PtrArray, rrtype_opt}
use baka_dns.Message.Name.{domain_len, strnlen}
use baka_dns.Message.Record.{create_resource_record}
use baka_dns.Message.Wire.{WireMessage, array_of, message_of}
use baka_dns.Client.{client_buffer_size, elements_of, find_opt, append_opt, add_edns}

-- The OPT record that the client appends: the root as its name, and the class 4096.
abbrev pub opt_record : ResourceRecord
opt_record = record {
  name = 0 ∷ [];
  type = rrtype_opt;
  class = client_buffer_size;
  ttl = 0;
  rdlength = 0;
  rdata = none;
}

-- The additional records of the request that is sent.
unfoldable pub with_edns : List ResourceRecord → List ResourceRecord
with_edns [] = opt_record ∷ []
with_edns (rr ∷ rrs) =
    if rr.type == rrtype_opt
    then record rr { ttl = client_buffer_size } ∷ rrs
    else rr ∷ with_edns rrs

pub elements_of-array_of : {A : Type 0} → (xs : List A) → elements_of (array_of xs) ≡ map some xs
elements_of-array_of [] = refl
elements_of-array_of (x ∷ xs) = rw (==_ne (suc (length xs)) 0 (λ e. omega arith)) refl

made :
    create_resource_record
      (0 ∷ 0 ∷ 0 ∷ 0 ∷ [])
      rrtype_opt
      client_buffer_size
      0
      0
      (0 ∷ 0 ∷ 0 ∷ 0 ∷ [])
    ≡ some (some opt_record)
unfolding create_resource_record domain_len strnlen read_bytes
made = refl

-- The search finds no OPT record, or the first one.
found :
    (xs : List ResourceRecord) (i : ℕ)
    → ((find_opt (length xs) i (map some xs) ≡ some none)
        × (with_edns xs ≡ xs ++ (opt_record ∷ [])))
      ⊎ ((k : ℕ) × (rr : ResourceRecord) × (find_opt (length xs) i (map some xs)
            ≡ some (some (i + k, rr)))
          × (map some (with_edns xs)
              ≡ set (map some xs) k (some (record rr { ttl = client_buffer_size })))
          × (length (with_edns xs) ≡ length xs)
          × (0 < length xs))
unfolding find_opt with_edns
found [] i = inl (refl, refl)
found (rr ∷ xs) i = elim (Bool-cases (rr.type == rrtype_opt)) [
  | inl t ↦ inr (
    0,
    rr,
    rw (t, find_opt) (ap (λ j. some (some (j, rr))) (omega arith)),
    rw t refl,
    rw t refl,
    omega arith,
  )
  | inr f ↦ elim (found xs (i + 1)) [
    | inl (e, l) ↦ inl (rw (f, find_opt) e, rw f (ap (◌∷◌ rr) l))
    | inr (k, r, e, l, n, h) ↦
        let shift : i + 1 + k ≡ i + suc k = omega arith in
        inr (
          suc k,
          r,
          rw (f, find_opt) (e ∙ ap (λ j. some (some (j, r))) shift),
          rw f (ap (◌∷◌ (some rr)) l),
          rw f (ap suc n),
          omega arith,
        )
  ]
]

-- The message with other additional records.
abbrev additions_as : WireMessage → ℕ → PtrArray ResourceRecord → Message
additions_as w n array = record (message_of w) {
  header = record (message_of w).header { arcount = n };
  addition = array;
}

take-map : (xs : List ResourceRecord) → take (length xs) (map some xs) ≡ map some xs
take-map [] = refl
take-map (x ∷ xs) = ap (◌∷◌ (some x)) (take-map xs)

pub array_of-inhabited :
    {A : Type 0} → (xs : List A) → 0 < length xs → array_of xs ≡ some (map some xs)
array_of-inhabited [] h = absurd (omega arith)
array_of-inhabited (x ∷ xs) h = rw (==_ne (suc (length xs)) 0 (λ e. omega arith)) refl

append_opt-message_of :
    (w : WireMessage)
    → length w.additions + 1 < 2 ^ 16
    → append_opt (message_of w)
      ≡ some (some (message_of (record w { additions = w.additions ++ (opt_record ∷ []) })))
unfolding append_opt
append_opt-message_of w small =
    let xs = w.additions in
    let ys = xs ++ (opt_record ∷ []) in
    let l = length-append xs (opt_record ∷ []) in
    let n : (length xs + 1) % 2 ^ 16 ≡ suc (length xs) = omega arith in
    let count : suc (length xs) ≡ length ys = omega arith in
    let elements : take (length xs) (elements_of (array_of xs)) ++ (some opt_record ∷ [])
        ≡ map some ys =
      ap (λ es. take (length xs) es ++ (some opt_record ∷ [])) (elements_of-array_of xs)
      ∙ ap (λ es. es ++ (some opt_record ∷ [])) (take-map xs)
      ∙ sym (map-append some xs (opt_record ∷ [])) in
    rw (n, append_opt)
      (rw (made, ◌>>=◌)
        (ap₂ (λ k es. some (some (additions_as w k es))) count
          (ap some elements ∙ sym (array_of-inhabited ys (omega arith)))))

-- The request that is sent for a complete message with less than 65535 additional records: the first
-- OPT record has its time to live replaced by 4096, or, if there is none, one is appended.
pub add_edns-with_edns :
    (w : WireMessage)
    → length w.additions + 1 < 2 ^ 16
    → add_edns (message_of w)
      ≡ some (some (message_of (record w { additions = with_edns w.additions })))
unfolding add_edns
add_edns-with_edns w small = elim (found w.additions 0) [
  | inl (e, l) ↦
      rw (elements_of-array_of w.additions, e, ◌>>=◌)
        (append_opt-message_of w small
          ∙ ap (λ xs. some (some (message_of (record w { additions = xs })))) (sym l))
  | inr (k, r, e, l, n, h) ↦
      rw (elements_of-array_of w.additions, e, ◌>>=◌)
        (ap₂
            (λ es j. some (
              some (
                additions_as w (length w.additions)
                  (some (set es j (some (record r { ttl = client_buffer_size })))))))
            (elements_of-array_of w.additions) (omega arith)
          ∙ ap₂ (λ j es. some (some (additions_as w j es))) (sym n)
              (ap some (sym l) ∙ sym (array_of-inhabited (with_edns w.additions) (omega arith))))
]
