-- ===== src/Message/Name/Decode.antt =====
-- What `read_domain` of src/storage/message.c decodes, as a relation on the packet alone: no
-- destination array, no fuel. It follows the loop, byte by byte; the names of RFC 1035 are in
-- Message.Name.Rfc.
use baka_dns.Base.{
  ℕ, zero, suc, ◌+◌, ◌-◌, ◌*◌, ◌/◌, ◌%◌, ◌^◌, ◌≡◌, ◌≢◌, inl, inr, refl, sym, ◌∙◌, true, false, none,
  some, List, [], ◌∷◌, arith, ◌==◌, ◌>>=◌, length, get_elem?, write_byte, write_bytes, Bool-cases,
  Option-cases, >>=-eq-some,
}
use baka_dns.Message.Name.{DomainRead, read_domain_loop, read_domain}

-- `Decodes base s bs n`: the loop copies the bytes `bs` (without the terminator) for position `s` of
-- the packet `base`, and takes `n` bytes there.
pub data Decodes (base : List ℕ) : ℕ → List ℕ → ℕ → Type 0 where
  end : {s : ℕ} → get_elem? base s ≡ some 0 → Decodes base s [] 1
  pointer :
      {s n : ℕ} {bs : List ℕ} (c c' : ℕ)
      → get_elem? base s ≡ some c
      → c ≢ 0
      → c / 2 ^ 6 % 4 ≡ 3
      → get_elem? base (s + 1) ≡ some c'
      → Decodes base ((c * 2 ^ 8 + c') % 2 ^ 14) bs n
      → Decodes base s bs 2
  plain :
      {s n : ℕ} {bs : List ℕ} (c : ℕ)
      → get_elem? base s ≡ some c
      → c ≢ 0
      → c / 2 ^ 6 % 4 ≢ 3
      → Decodes base (s + 1) bs n
      → Decodes base s (c ∷ bs) (suc n)

-- The loop of `read_domain`, one equation for each branch.
module _ (fuel : ℕ) (base : List ℕ) (src : ℕ) (dest : List ℕ) (d len offset : ℕ) where
  loop_zero : read_domain_loop zero base src dest d len offset ≡ none
  unfolding read_domain_loop
  loop_zero = refl

  loop_outside :
      get_elem? base src ≡ none → read_domain_loop (suc fuel) base src dest d len offset ≡ none
  unfolding read_domain_loop
  loop_outside e = rw (e, ◌>>=◌)

  pub loop_end :
      (c : ℕ)
      → get_elem? base src ≡ some c
      → (c == 0) ≡ true
      → read_domain_loop (suc fuel) base src dest d len offset
        ≡ some (record { dest = dest; len = len; offset = offset + 1 })
  unfolding read_domain_loop
  loop_end c e z = ground arith

  pub loop_pointer :
      (c : ℕ)
      → get_elem? base src ≡ some c
      → (c == 0) ≡ false
      → (c / 2 ^ 6 % 4 == 3) ≡ true
      → read_domain_loop (suc fuel) base src dest d len offset ≡ (
          get_elem? base (src + 1) >>= λ c'.
          read_domain_loop fuel base ((c * 2 ^ 8 + c') % 2 ^ 14) dest d 1 0 >>= λ r.
          some (record { dest = r.dest; len = len + (r.len - 1); offset = offset + 1 + 1 }))
  unfolding read_domain_loop
  loop_pointer c e z t = rw (e, ◌>>=◌) (rw (z, t))

  pub loop_plain :
      (c : ℕ)
      → get_elem? base src ≡ some c
      → (c == 0) ≡ false
      → (c / 2 ^ 6 % 4 == 3) ≡ false
      → read_domain_loop (suc fuel) base src dest d len offset ≡ (
          write_byte dest d c >>= λ dest'.
          read_domain_loop fuel base (src + 1) dest' (d + 1) (len + 1) (offset + 1))
  unfolding read_domain_loop
  loop_plain c e z t = rw (e, ◌>>=◌) (rw (z, t))

-- What a successful run has found: a decoding of the packet, its bytes at `d` of the destination.
pub record Found (base : List ℕ) (src : ℕ) (dest : List ℕ) (d len offset : ℕ) (r : DomainRead)
    : Type 0 where
  pub bytes : List ℕ
  pub taken : ℕ
  pub decodes : Decodes base src bytes taken
  pub written : write_bytes dest d bytes ≡ some r.dest
  pub length_lem : r.len ≡ len + length bytes
  pub offset_lem : r.offset ≡ offset + taken

read_domain_loop-Found :
    (fuel : ℕ) (base : List ℕ) (src : ℕ) (dest : List ℕ) (d len offset : ℕ) (r : DomainRead)
    → read_domain_loop fuel base src dest d len offset ≡ some r
    → Found base src dest d len offset r
unfolding write_bytes
read_domain_loop-Found zero base src dest d len offset r h =
    absurd (ground (arith, loop_zero 0 base src dest d len offset))
read_domain_loop-Found (suc fuel) base src dest d len offset r h =
    elim (Option-cases (get_elem? base src)) [
      | inl e ↦ absurd (ground (arith, loop_outside fuel base src dest d len offset e))
      | inr (c, e) ↦ elim (Bool-cases (c == 0)) [
        | inl z ↦ record {
          bytes = [];
          taken = 1;
          decodes = end (ground arith);
          written = ground (arith, loop_end fuel base src dest d len offset c e z);
          length_lem = ground (arith, loop_end fuel base src dest d len offset c e z);
          offset_lem = ground (arith, loop_end fuel base src dest d len offset c e z);
        }
        | inr z ↦ elim (Bool-cases (c / 2 ^ 6 % 4 == 3)) [
          | inl t ↦
              let (c', e', h1) =
                >>=-eq-some (get_elem? base (src + 1)) _
                  (sym (loop_pointer fuel base src dest d len offset c e z t) ∙ h) in
              let (r', run, done) = >>=-eq-some _ _ h1 in
              let f =
                read_domain_loop-Found fuel base ((c * 2 ^ 8 + c') % 2 ^ 14) dest d 1 0 r' run in
              record {
                bytes = f.bytes;
                taken = 2;
                decodes = pointer c c' e (ground arith) (ground arith) e' f.decodes;
                written = ground arith;
                length_lem = ground arith;
                offset_lem = ground arith;
              }
          | inr t ↦
              let (dest', wrote, run) =
                >>=-eq-some (write_byte dest d c) _
                  (sym (loop_plain fuel base src dest d len offset c e z t) ∙ h) in
              let f =
                read_domain_loop-Found fuel base (src + 1) dest' (d + 1) (len + 1) (offset + 1) r
                  run in
              record {
                bytes = c ∷ f.bytes;
                taken = suc f.taken;
                decodes = plain c e (ground arith) (ground arith) f.decodes;
                written = rw wrote f.written;
                length_lem = ground arith;
                offset_lem = ground arith;
              }
        ]
      ]
    ]

-- Whatever `read_domain` returns is a decoding of the packet: its bytes, and nothing else, are stored
-- from `d` on in the destination, the result is their number with the terminator, and `*_offset` is
-- the number of bytes that it takes at `src`.
pub read_domain_sound :
    (fuel : ℕ) (base : List ℕ) (src : ℕ) (dest : List ℕ) (d : ℕ) (r : DomainRead)
    → read_domain fuel base src dest d ≡ some r
    → (bs : List ℕ) × (n : ℕ) × Decodes base src bs n
      × (write_bytes dest d bs ≡ some r.dest)
      × (r.len ≡ length bs + 1)
      × (r.offset ≡ n)
unfolding read_domain
read_domain_sound fuel base src dest d r h =
    let f = read_domain_loop-Found fuel base src dest d 1 0 r h in
    (
      f.bytes,
      f.taken,
      f.decodes,
      f.written,
      omega (arith, f.length_lem),
      omega (arith, f.offset_lem),
    )
