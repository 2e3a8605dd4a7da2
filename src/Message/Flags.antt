-- ===== src/Message/Flags.antt =====
-- The flag bytes of a header: the accessor macros of src/storage/message.h, and `create_misc1` and
-- `create_misc2` of src/storage/message.c. Fields are bytes, and shifts to the left keep eight bits.
pub mod Layout
use baka_dns.Base.{
  ℕ, zero, suc, ◌+◌, ◌*◌, ◌/◌, ◌%◌, ◌^◌, ◌<◌, ◌≡◌, refl, bit_and, bit_or, arith, Bool, true, ◌&&◌,
  ◌==◌, ==_iff,
}

abbrev pub qr_mask : ℕ
qr_mask = 0x80

abbrev pub opcode_mask : ℕ
opcode_mask = 0x78

abbrev pub aa_mask : ℕ
aa_mask = 0x04

abbrev pub tc_mask : ℕ
tc_mask = 0x02

abbrev pub rd_mask : ℕ
rd_mask = 0x01

abbrev pub ra_mask : ℕ
ra_mask = 0x80

abbrev pub z_mask : ℕ
z_mask = 0x70

abbrev pub rcode_mask : ℕ
rcode_mask = 0x0f

unfoldable pub qr_of : ℕ → ℕ
qr_of x = bit_and x qr_mask / 2 ^ 7

unfoldable pub opcode_of : ℕ → ℕ
opcode_of x = bit_and x opcode_mask / 2 ^ 3

unfoldable pub aa_of : ℕ → ℕ
aa_of x = bit_and x aa_mask / 2 ^ 2

unfoldable pub tc_of : ℕ → ℕ
tc_of x = bit_and x tc_mask / 2 ^ 1

unfoldable pub rd_of : ℕ → ℕ
rd_of x = bit_and x rd_mask

unfoldable pub ra_of : ℕ → ℕ
ra_of x = bit_and x ra_mask / 2 ^ 7

unfoldable pub z_of : ℕ → ℕ
z_of x = bit_and x z_mask / 2 ^ 4

unfoldable pub rcode_of : ℕ → ℕ
rcode_of x = bit_and x rcode_mask

-- The arguments are promoted to `int`, shifted and masked, and the masks keep the result a byte.
unfoldable pub create_misc1 : ℕ → ℕ → ℕ → ℕ → ℕ → ℕ
create_misc1 qr opcode aa tc rd =
    bit_or
      (bit_or
        (bit_or (bit_or (bit_and (qr * 2 ^ 7) qr_mask) (bit_and (opcode * 2 ^ 3) opcode_mask))
          (bit_and (aa * 2 ^ 2) aa_mask))
        (bit_and (tc * 2 ^ 1) tc_mask))
      (bit_and rd rd_mask)

unfoldable pub create_misc2 : ℕ → ℕ → ℕ → ℕ
create_misc2 ra z rcode =
    bit_or (bit_or (bit_and (ra * 2 ^ 7) ra_mask) (bit_and (z * 2 ^ 4) z_mask))
      (bit_and rcode rcode_mask)
