-- ===== src/Message/Name/Rfc.antt =====
-- The names of RFC 1035 section 4.1.4, by their labels, and what `read_domain` of
-- src/storage/message.c makes of them. The C loop looks at single bytes and never at a label's length.
use baka_dns.Base.{
  ℕ, suc, ◌+◌, ◌*◌, ◌%◌, ◌^◌, ◌≤◌, ◌<◌, ◌≡◌, refl, sym, ap, ap₂, ◌∙◌, subst, some, List, [], ◌∷◌,
  ◌++◌, append_assoc, All, arith, length, length-append, drop, get_elem?, get_elem?-drop, drop-next,
  write_bytes,
}
use baka_dns.Message.Labels.{Label, label_bytes}
use baka_dns.Message.Name.{DomainRead, read_domain}
use baka_dns.Message.Name.Decode.{Decodes, end, pointer, plain, read_domain_sound}
use baka_dns.Message.Name.Complete.{
  steps, read_domain_complete, PlainByte, plain-Decodes, steps-plain-Decodes,
}

-- `NameAt base s ls n`: at position `s` of the packet `base` stands the name with the labels `ls`, and
-- it takes `n` bytes there. A label is its length, 1 to 63, and that many bytes; a pointer is two bytes
-- of which the upper two bits are set and the other fourteen are a position in the packet.
pub data NameAt (base : List ℕ) : ℕ → List Label → ℕ → Type 0 where
  root : {s : ℕ} → get_elem? base s ≡ some 0 → NameAt base s [] 1
  label :
      {s n : ℕ} {ls : List Label} (l rest : List ℕ)
      → 0 < length l
      → length l < 64
      → drop s base ≡ length l ∷ (l ++ rest)
      → NameAt base (s + 1 + length l) ls n
      → NameAt base s (l ∷ ls) (suc (length l + n))
  pointed :
      {s n : ℕ} {ls : List Label} (high low : ℕ)
      → high < 64
      → low < 256
      → get_elem? base s ≡ some (192 + high)
      → get_elem? base (s + 1) ≡ some low
      → NameAt base (high * 256 + low) ls n
      → NameAt base s ls 2

-- The bytes of the labels and the pointers on the way, and the end.
unfoldable pub rounds : {base : List ℕ} {s n : ℕ} {ls : List Label} → NameAt base s ls n → ℕ
rounds (root _) = 1
rounds (label l _ _ _ _ k) = suc (length l + rounds k)
rounds (pointed _ _ _ _ _ _ k) = suc (rounds k)

-- Each byte of each label is one that `read_domain` copies: not 0, and below 192 if it is a byte.
abbrev pub ArePlain : List Label → Type 0
ArePlain ls = All (All PlainByte) ls

-- Some decoding with a bound on its rounds.
abbrev DecodesIn : List ℕ → ℕ → List ℕ → ℕ → ℕ → Type 0
DecodesIn base s bs n m = (D : Decodes base s bs n) × (steps D ≤ m)

plain_bytes :
    (base : List ℕ) (s n m : ℕ) (l rest bs : List ℕ)
    → All PlainByte l
    → drop s base ≡ l ++ rest
    → DecodesIn base (s + length l) bs n m
    → DecodesIn base s (l ++ bs) (length l + n) (length l + m)
unfolding steps
plain_bytes base s n m [] rest bs h e k =
    let k1 : DecodesIn base s bs n m = subst (λ i. DecodesIn base i bs n m) (omega arith) k in
    let k2 : DecodesIn base s bs (0 + n) m =
      subst (λ i. DecodesIn base s bs i m) (omega arith) k1 in
    (k2.0, omega (arith, k2.1))
plain_bytes base s n m (b ∷ l) rest bs h e k =
    let k1 : DecodesIn base (s + 1 + length l) bs n m =
      subst (λ i. DecodesIn base i bs n m) (omega arith) k in
    let (D, le) = plain_bytes base (s + 1) n m l rest bs h.1 (drop-next base s b _ e) k1 in
    let k2 : DecodesIn base s (b ∷ (l ++ bs)) (suc (length l + n)) (suc (length l + m)) =
      (plain b (get_elem?-drop base s b _ e) h.0.0 h.0.1 D, omega (arith, le)) in
    let k3 : DecodesIn base s (b ∷ (l ++ bs)) (suc (length l) + n) (suc (length l + m)) =
      subst (λ i. DecodesIn base s (b ∷ (l ++ bs)) i (suc (length l + m))) (omega arith) k2 in
    (k3.0, omega (arith, k3.1))

NameAt-Decodes :
    {base : List ℕ} {s n : ℕ} {ls : List Label} (k : NameAt base s ls n)
    → ArePlain ls
    → DecodesIn base s (label_bytes ls) n (rounds k)
unfolding rounds steps label_bytes
NameAt-Decodes (root e) h = (end e, omega arith)
NameAt-Decodes {base} {s} (label l rest inhabited short e k) h =
    let n = length l in
    let (D, le) =
      plain_bytes base (s + 1) _ (rounds k) l rest _ h.0 (drop-next base s n _ e)
        (NameAt-Decodes k h.1) in
    (plain n (get_elem?-drop base s n _ e) (ground arith) (ground arith) D, omega (arith, le))
NameAt-Decodes {base} {s} {n} {ls} (pointed {n = i} high low h1 h2 e e' k) h =
    let at : high * 256 + low ≡ ((192 + high) * 2 ^ 8 + low) % 2 ^ 14 = ground arith in
    let (D, le) =
      subst (λ t. DecodesIn base t (label_bytes ls) i (rounds k)) at (NameAt-Decodes k h) in
    (pointer (192 + high) low e (ground arith) (ground arith) e' D, omega (arith, le))

Decodes-unique :
    {base : List ℕ} {s n m : ℕ} {bs cs : List ℕ}
    → Decodes base s bs n
    → Decodes base s cs m
    → (bs ≡ cs) × (n ≡ m)
Decodes-unique (end e) (end f) = (refl, refl)
Decodes-unique (end e) (pointer c c' f nz t f' D) =
    let x : some 0 ≡ some c = sym e ∙ f in absurd (ground arith)
Decodes-unique (end e) (plain c f nz t D) =
    let x : some 0 ≡ some c = sym e ∙ f in absurd (ground arith)
Decodes-unique (pointer c c' f nz t f' D) (end e) =
    let x : some 0 ≡ some c = sym e ∙ f in absurd (ground arith)
Decodes-unique (plain c f nz t D) (end e) =
    let x : some 0 ≡ some c = sym e ∙ f in absurd (ground arith)
Decodes-unique (pointer c c' e nz t e' D) (plain b f mz u E) =
    let x : some c ≡ some b = sym e ∙ f in absurd (ground arith)
Decodes-unique (plain b f mz u E) (pointer c c' e nz t e' D) =
    let x : some c ≡ some b = sym e ∙ f in absurd (ground arith)
Decodes-unique {base} (pointer c c' e nz t e' D) (pointer {n = i} {bs = cs} b b' f mz u f' E) =
    let x : some c ≡ some b = sym e ∙ f in
    let y : some c' ≡ some b' = sym e' ∙ f' in
    let same : (b * 2 ^ 8 + b') % 2 ^ 14 ≡ (c * 2 ^ 8 + c') % 2 ^ 14 = ground arith in
    ((Decodes-unique D (subst (λ k. Decodes base k cs i) same E)).0, refl)
Decodes-unique (plain c e nz t D) (plain b f mz u E) =
    let x : some c ≡ some b = sym e ∙ f in
    let (same, n) = Decodes-unique D E in let y : c ≡ b = ground arith in (ap₂ ◌∷◌ y same, ap suc n)

-- At a name of RFC 1035 whose labels have no zero byte and no byte above 191, `read_domain` returns
-- nothing else, whatever the fuel and the destination: if it returns, the labels with their lengths,
-- and nothing else, are stored from `d` on, the result is their number of bytes with the terminator,
-- and `*_offset` is the number of bytes that the name takes at `s`.
pub read_domain_agrees :
    {base : List ℕ} {s n : ℕ} {ls : List Label} (k : NameAt base s ls n) (fuel : ℕ) (dest : List ℕ)
    (d : ℕ) (r : DomainRead)
    → ArePlain ls
    → read_domain fuel base s dest d ≡ some r
    → (write_bytes dest d (label_bytes ls) ≡ some r.dest)
      × (r.len ≡ length (label_bytes ls) + 1)
      × (r.offset ≡ n)
read_domain_agrees {base} {s} k fuel dest d r h runs =
    let (bs, m, D, written, len, offset) = read_domain_sound fuel base s dest d r runs in
    let (same, taken) = Decodes-unique D (NameAt-Decodes k h).0 in
    (
      subst (λ b. write_bytes dest d b ≡ some r.dest) same written,
      len ∙ ap (λ b. length b + 1) same,
      offset ∙ taken,
    )

-- Every name of RFC 1035 whose labels have no zero byte and no byte above 191, and whose bytes fit the
-- destination, is read, through all its pointers, with a round of fuel for each byte and pointer on its
-- way: the labels with their lengths are stored from `d` on, the result is their number of bytes with
-- the terminator, and `*_offset` is the number of bytes that the name takes at `s`.
pub read_domain-NameAt :
    {base : List ℕ} {s n : ℕ} {ls : List Label} (k : NameAt base s ls n) (fuel : ℕ)
    (dest dest' : List ℕ) (d : ℕ)
    → ArePlain ls
    → rounds k ≤ fuel
    → write_bytes dest d (label_bytes ls) ≡ some dest'
    → read_domain fuel base s dest d
      ≡ some (record { dest = dest'; len = length (label_bytes ls) + 1; offset = n })
read_domain-NameAt k fuel dest dest' d h enough written =
    let (D, le) = NameAt-Decodes k h in
    read_domain_complete D fuel dest dest' d (omega (arith, le)) written

-- A label with a zero byte ends there for `read_domain`: of a label `pre ++ 0 ∷ post` whose bytes before
-- the zero byte are not above 191, its length and these bytes are stored, as if they were the whole name,
-- and `*_offset` ends behind the zero byte.
pub read_domain_cut :
    (base pre post rest : List ℕ) (s fuel : ℕ) (dest dest' : List ℕ) (d : ℕ)
    → drop s base ≡ length (pre ++ (0 ∷ post)) ∷ ((pre ++ (0 ∷ post)) ++ rest)
    → length (pre ++ (0 ∷ post)) < 64
    → All PlainByte pre
    → length pre + 2 ≤ fuel
    → write_bytes dest d (length (pre ++ (0 ∷ post)) ∷ pre) ≡ some dest'
    → read_domain fuel base s dest d
      ≡ some (record { dest = dest'; len = length pre + 2; offset = length pre + 2 })
read_domain_cut base pre post rest s fuel dest dest' d e short h enough written =
    let l = pre ++ (0 ∷ post) in
    let n = length-append pre (0 ∷ post) in
    let first : PlainByte (length l) = (ground arith, ground arith) in
    let bytes = length l ∷ pre in
    let at : drop s base ≡ bytes ++ (0 ∷ (post ++ rest)) =
      e ∙ ap (◌∷◌ (length l)) (append_assoc pre (0 ∷ post) rest) in
    let D = plain-Decodes base bytes (post ++ rest) s (first, h) at in
    let steps_lem = steps-plain-Decodes base bytes (post ++ rest) s (first, h) at in
    read_domain_complete D fuel dest dest' d (omega (arith, steps_lem)) written
    ∙ ap₂ (λ a b. some (record { dest = dest'; len = a; offset = b })) (omega arith) (omega arith)
