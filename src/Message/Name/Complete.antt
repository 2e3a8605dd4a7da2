-- ===== src/Message/Name/Complete.antt =====
-- When `read_domain` of src/storage/message.c returns.
use baka_dns.Base.{
  ℕ, zero, suc, ◌+◌, ◌*◌, ◌/◌, ◌%◌, ◌^◌, ◌≤◌, ◌≡◌, ◌≢◌, inl, inr, refl, sym, ap, ◌∙◌, none, some,
  List, [], ◌∷◌, ◌++◌, arith, ◌>>=◌, length, drop, get_elem?, write_byte, write_bytes, Option-cases,
  >>=-eq-some, ==_ne, get_elem?-drop, drop-next, subst, All,
}
use baka_dns.Message.Name.{read_domain_loop, read_domain}
use baka_dns.Message.Name.Decode.{
  Decodes, end, pointer, plain, loop_end, loop_pointer, loop_plain, read_domain_sound,
}

-- The bytes and pointers that are looked at.
unfoldable pub steps : {base : List ℕ} {s n : ℕ} {bs : List ℕ} → Decodes base s bs n → ℕ
steps (end _) = 1
steps (pointer _ _ _ _ _ _ d) = suc (steps d)
steps (plain _ _ _ _ d) = suc (steps d)

read_domain_loop_complete :
    {base : List ℕ} {s n : ℕ} {bs : List ℕ} (D : Decodes base s bs n) (fuel : ℕ)
    (dest dest' : List ℕ) (d len offset : ℕ)
    → steps D ≤ fuel
    → write_bytes dest d bs ≡ some dest'
    → read_domain_loop fuel base s dest d len offset
      ≡ some (record { dest = dest'; len = len + length bs; offset = offset + n })
unfolding write_bytes steps
read_domain_loop_complete (end e) zero dest dest' d len offset h w = absurd (omega arith)
read_domain_loop_complete {base} {s} (end e) (suc fuel) dest dest' d len offset h w =
    loop_end fuel base s dest d len offset 0 e refl ∙ ground arith
read_domain_loop_complete (pointer c c' e nz t e' D) zero dest dest' d len offset h w =
    absurd (omega arith)
read_domain_loop_complete {base} {s} (pointer c c' e nz t e' D) (suc fuel) dest dest' d len offset h
      w =
    loop_pointer fuel base s dest d len offset c e (==_ne c 0 nz) (ground arith)
    ∙ rw (e', ◌>>=◌)
        (rw (read_domain_loop_complete D fuel dest dest' d 1 0 (omega arith) w, ◌>>=◌)
          (ground arith))
read_domain_loop_complete (plain c e nz t D) zero dest dest' d len offset h w = absurd (omega arith)
read_domain_loop_complete {base} {s} (plain c e nz t D) (suc fuel) dest dest' d len offset h w =
    let (dest1, w1, w2) = >>=-eq-some (write_byte dest d c) _ w in
    loop_plain fuel base s dest d len offset c e (==_ne c 0 nz) (ground arith)
    ∙ rw (w1, ◌>>=◌)
        (read_domain_loop_complete D fuel dest1 dest' (d + 1) (len + 1) (offset + 1) (omega arith)
            w2
          ∙ ground arith)

-- Every decoding of the packet whose bytes fit is read, with a round of fuel for each byte and pointer on
-- its way: they are stored in the destination, the result is their number with the terminator, and
-- `*_offset` is the number of bytes that it takes at `s`.
pub read_domain_complete :
    {base : List ℕ} {s n : ℕ} {bs : List ℕ} (D : Decodes base s bs n) (fuel : ℕ)
    (dest dest' : List ℕ) (d : ℕ)
    → steps D ≤ fuel
    → write_bytes dest d bs ≡ some dest'
    → read_domain fuel base s dest d
      ≡ some (record { dest = dest'; len = length bs + 1; offset = n })
unfolding read_domain
read_domain_complete D fuel dest dest' d h w =
    read_domain_loop_complete D fuel dest dest' d 1 0 h w ∙ ground arith

-- A byte that `read_domain` copies: no terminator, and not read as a compression pointer.
abbrev pub PlainByte : ℕ → Type 0
PlainByte b = (b ≢ 0) × (b / 2 ^ 6 % 4 ≢ 3)

pub plain-Decodes :
    (base bs rest : List ℕ) (s : ℕ)
    → All PlainByte bs
    → drop s base ≡ bs ++ (0 ∷ rest)
    → Decodes base s bs (suc (length bs))
plain-Decodes base [] rest s h e = end (get_elem?-drop base s 0 rest e)
plain-Decodes base (b ∷ bs) rest s h e =
    plain b (get_elem?-drop base s b _ e) h.0.0 h.0.1
      (plain-Decodes base bs rest (s + 1) h.1 (drop-next base s b _ e))

pub steps-plain-Decodes :
    (base bs rest : List ℕ) (s : ℕ) (h : All PlainByte bs) (e : drop s base ≡ bs ++ (0 ∷ rest))
    → steps (plain-Decodes base bs rest s h e) ≡ suc (length bs)
unfolding steps plain-Decodes
steps-plain-Decodes base [] rest s h e = refl
steps-plain-Decodes base (b ∷ bs) rest s h e =
    ap suc (steps-plain-Decodes base bs rest (s + 1) h.1 (drop-next base s b _ e))

-- A compression pointer at `s`, and where it points to.
pub record PointerAt (base : List ℕ) (s target : ℕ) : Type 0 where
  pub high : ℕ
  pub low : ℕ
  pub high_at : get_elem? base s ≡ some high
  pub marked : high / 2 ^ 6 % 4 ≡ 3
  pub low_at : get_elem? base (s + 1) ≡ some low
  pub points : (high * 2 ^ 8 + low) % 2 ^ 14 ≡ target

module _ {ℓ} (base : List ℕ) (P : ℕ → Type ℓ)
    (closed : (s : ℕ) → P s → (t : ℕ) × PointerAt base s t × P t) where
  not-Decodes : {s n : ℕ} {bs : List ℕ} → Decodes base s bs n → ¬ P s
  not-Decodes {s} (end e) p =
      let (t, at, q) = closed s p in
      let hi : some at.high ≡ some 0 = sym at.high_at ∙ e in absurd (ground (arith, at.marked))
  not-Decodes {s} (pointer c c' e nz m e' D) p =
      let (t, at, q) = closed s p in
      let hi : some at.high ≡ some c = sym at.high_at ∙ e in
      let lo : some at.low ≡ some c' = sym at.low_at ∙ e' in
      let same : t ≡ (c * 2 ^ 8 + c') % 2 ^ 14 = ground (arith, at.points) in
      not-Decodes D (subst P same q)
  not-Decodes {s} (plain c e nz m D) p =
      let (t, at, q) = closed s p in
      let hi : some at.high ≡ some c = sym at.high_at ∙ e in absurd (ground (arith, at.marked))

  -- Where every position of a set holds a compression pointer to a position of the set (a pointer
  -- to itself, or a cycle of pointers), `read_domain` returns at no position of the set, however
  -- much fuel it has: the C function recurs until its stack is used up.
  pub read_domain_cycle :
      (s : ℕ) → P s → (fuel : ℕ) (dest : List ℕ) (d : ℕ) → read_domain fuel base s dest d ≡ none
  read_domain_cycle s p fuel dest d = elim (Option-cases (read_domain fuel base s dest d)) [
    | inl e ↦ e
    | inr (r, e) ↦
        let (bs, n, D, _, _, _) = read_domain_sound fuel base s dest d r e in
        absurd (not-Decodes D p)
  ]
