-- ===== src/Message/Name.antt =====
-- Domain names in src/storage/message.c: C strings, `domain_len` and `read_domain`.
pub mod Decode
pub mod Complete
pub mod Rfc
use baka_dns.Base.{
  ℕ, zero, suc, ◌+◌, ◌-◌, ◌*◌, ◌/◌, ◌%◌, ◌^◌, Bool, true, false, Option, none, some, List, [], ◌∷◌,
  ltb, leb, ◌==◌, if◌then◌else◌, ◌>>=◌, get_elem?, write_byte,
}
use baka_dns.Message.{IntRet, ret, minus_one, domain_len_max, domain_buf_len}

-- `strnlen(s, n)`; a string with no terminator in its block is read past its end.
unfoldable pub strnlen : ℕ → List ℕ → Option ℕ
strnlen zero s = some 0
strnlen (suc n) [] = none
strnlen (suc n) (c ∷ s) = elim (c == 0) [ true ↦ some 0 | false ↦ do k ← strnlen n s; some (suc k) ]

-- `strncmp(a, b, n) == 0`
unfoldable pub strncmp_eq : ℕ → List ℕ → List ℕ → Option Bool
strncmp_eq zero a b = some true
strncmp_eq (suc n) [] b = none
strncmp_eq (suc n) (x ∷ a) [] = none
strncmp_eq (suc n) (x ∷ a) (y ∷ b) = elim (x == y) [
  | true ↦ elim (x == 0) [ true ↦ some true | false ↦ strncmp_eq n a b ]
  | false ↦ some false
]

-- The length with the terminator; -1 if it is above DOMAIN_LEN_MAX.
unfoldable pub domain_len : List ℕ → Option IntRet
domain_len domain = do
  n ← strnlen domain_buf_len domain
  some (if ltb domain_len_max (n + 1) then minus_one else ret (n + 1))

-- What `read_domain` leaves: the destination array, its result and `*_offset`.
pub record DomainRead : Type 0 where
  pub dest : List ℕ
  pub len : ℕ
  pub offset : ℕ

-- The loop of `read_domain`, with the position `d` in the array `dest`. The fuel bounds the steps
-- of the loop and of its recursive calls together.
unfoldable pub read_domain_loop : ℕ → List ℕ → ℕ → List ℕ → ℕ → ℕ → ℕ → Option DomainRead
read_domain_loop zero base src dest d buf_domain_len offset = none
read_domain_loop (suc fuel) base src dest d buf_domain_len offset = do
  c ← get_elem? base src
  elim (c == 0) [
    | true ↦ some (record { dest = dest; len = buf_domain_len; offset = offset + 1 })
    | false ↦ elim (c / 2 ^ 6 % 4 == 3) [
      | true ↦ do
        c' ← get_elem? base (src + 1)
        r ← read_domain_loop fuel base ((c * 2 ^ 8 + c') % 2 ^ 14) dest d 1 0
        some (record { dest = r.dest; len = buf_domain_len + (r.len - 1); offset = offset + 1 + 1 })
      | false ↦ do
        dest' ← write_byte dest d c
        read_domain_loop fuel base (src + 1) dest' (d + 1) (buf_domain_len + 1) (offset + 1)
    ]
  ]

unfoldable pub read_domain : ℕ → List ℕ → ℕ → List ℕ → ℕ → Option DomainRead
read_domain fuel base src dest d = read_domain_loop fuel base src dest d 1 0
