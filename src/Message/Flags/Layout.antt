-- ===== src/Message/Flags/Layout.antt =====
-- The layout of the flag bytes: what `create_misc1` and `create_misc2` build, and what the
-- accessors read from it.
use native.Mathlib.Decide.{ℕ_discrete}
use baka_dns.Base.{
  ◌≤◌, subst, false, if◌then◌else◌, ℕ, zero, suc, ◌+◌, ◌*◌, ◌/◌, ◌%◌, ◌<◌, ◌≡◌, refl, ◌∙◌, arith,
  Bool, true, ◌&&◌, ◌==◌,
}
use baka_dns.Message.Flags.{
  qr_of, opcode_of, aa_of, tc_of, rd_of, ra_of, z_of, rcode_of, create_misc1, create_misc2,
}

-- Whether a test holds for each of the `n` bytes from `b` on.
each_byte : (ℕ → Bool) → ℕ → ℕ → Bool
each_byte holds b zero = true
each_byte holds b (suc n) =
    let later = each_byte holds (b + 1) n in if holds b then later else false

each_byte_holds :
    (holds : ℕ → Bool) (n b k : ℕ) → each_byte holds b n ≡ true → b ≤ k → k < b + n → holds k ≡ true
unfolding each_byte
each_byte_holds holds zero b k table low high = absurd (omega arith)
each_byte_holds holds (suc n) b k table low high = elim (ℕ_discrete b k) [
  | yes here ↦ subst (λ i. holds i ≡ true) here (ground arith)
  | no past ↦ each_byte_holds holds n (b + 1) k (ground arith) (omega arith) (omega arith)
]

-- The accessors as fields of a number.
abbrev misc1_fields : ℕ → Bool
misc1_fields x =
    (qr_of x == x / 128)
    && ((opcode_of x == x / 8 % 16)
        && ((aa_of x == x / 4 % 2) && ((tc_of x == x / 2 % 2) && (rd_of x == x % 2))))

abbrev misc1_rebuilt : ℕ → Bool
misc1_rebuilt x = create_misc1 (x / 128) (x / 8 % 16) (x / 4 % 2) (x / 2 % 2) (x % 2) == x

abbrev misc2_fields : ℕ → Bool
misc2_fields x = (ra_of x == x / 128) && ((z_of x == x / 16 % 8) && (rcode_of x == x % 16))

abbrev misc2_rebuilt : ℕ → Bool
misc2_rebuilt x = create_misc2 (x / 128) (x / 16 % 8) (x % 16) == x

misc1_table : each_byte (λ x. misc1_fields x && misc1_rebuilt x) 0 256 ≡ true
unfolding each_byte qr_of opcode_of aa_of tc_of rd_of create_misc1
misc1_table = refl

misc2_table : each_byte (λ x. misc2_fields x && misc2_rebuilt x) 0 256 ≡ true
unfolding each_byte ra_of z_of rcode_of create_misc2
misc2_table = refl

-- What a byte of `misc1` holds.
misc1_byte :
    (x : ℕ)
    → x < 256
    → (qr_of x ≡ x / 128)
      × (opcode_of x ≡ x / 8 % 16)
      × (aa_of x ≡ x / 4 % 2)
      × (tc_of x ≡ x / 2 % 2)
      × (rd_of x ≡ x % 2)
      × (create_misc1 (x / 128) (x / 8 % 16) (x / 4 % 2) (x / 2 % 2) (x % 2) ≡ x)
misc1_byte x h = ground (arith, each_byte_holds _ 256 0 x misc1_table (omega arith) (omega arith))

misc2_byte :
    (x : ℕ)
    → x < 256
    → (ra_of x ≡ x / 128)
      × (z_of x ≡ x / 16 % 8)
      × (rcode_of x ≡ x % 16)
      × (create_misc2 (x / 128) (x / 16 % 8) (x % 16) ≡ x)
misc2_byte x h = ground (arith, each_byte_holds _ 256 0 x misc2_table (omega arith) (omega arith))

-- For a direction bit, a four-bit opcode and three flag bits, `create_misc1` is the RFC 1035
-- layout of the third header byte, and each accessor reads back the field that was put in.
pub create_misc1_fields :
    (qr opcode aa tc rd : ℕ)
    → qr < 2
    → opcode < 16
    → aa < 2
    → tc < 2
    → rd < 2
    → let x = create_misc1 qr opcode aa tc rd in
      (x ≡ qr * 128 + opcode * 8 + aa * 4 + tc * 2 + rd)
      × (qr_of x ≡ qr)
      × (opcode_of x ≡ opcode)
      × (aa_of x ≡ aa)
      × (tc_of x ≡ tc)
      × (rd_of x ≡ rd)
create_misc1_fields qr opcode aa tc rd h1 h2 h3 h4 h5 =
    let y = qr * 128 + opcode * 8 + aa * 4 + tc * 2 + rd in
    let e1 : y / 128 ≡ qr = omega arith in
    let e2 : y / 8 % 16 ≡ opcode = omega arith in
    let e3 : y / 4 % 2 ≡ aa = omega arith in
    let e4 : y / 2 % 2 ≡ tc = omega arith in
    let e5 : y % 2 ≡ rd = omega arith in
    let (a, b, c, d, f, g) = misc1_byte y (omega arith) in
    let e : create_misc1 qr opcode aa tc rd ≡ y = cc in
    rw e (refl, a ∙ e1, b ∙ e2, c ∙ e3, d ∙ e4, f ∙ e5)

-- For a bit, a three-bit field and a four-bit response code, `create_misc2` is the RFC 1035 layout
-- of the fourth header byte, and each accessor reads back the field that was put in.
pub create_misc2_fields :
    (ra z rcode : ℕ)
    → ra < 2
    → z < 8
    → rcode < 16
    → let x = create_misc2 ra z rcode in
      (x ≡ ra * 128 + z * 16 + rcode) × (ra_of x ≡ ra) × (z_of x ≡ z) × (rcode_of x ≡ rcode)
create_misc2_fields ra z rcode h1 h2 h3 =
    let y = ra * 128 + z * 16 + rcode in
    let e1 : y / 128 ≡ ra = omega arith in
    let e2 : y / 16 % 8 ≡ z = omega arith in
    let e3 : y % 16 ≡ rcode = omega arith in
    let (a, b, c, d) = misc2_byte y (omega arith) in
    let e : create_misc2 ra z rcode ≡ y = cc in rw e (refl, a ∙ e1, b ∙ e2, c ∙ e3)
