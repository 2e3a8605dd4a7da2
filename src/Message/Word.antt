-- ===== src/Message/Word.antt =====
-- The byte order conversions of src/storage/message.c: a network integer is read from and written to
-- an array, the most significant byte first.
use baka_dns.Base.{
  ℕ, ◌+◌, ◌*◌, ◌/◌, ◌%◌, ◌^◌, ◌<◌, ◌≡◌, Option, some, List, [], ◌∷◌, ◌++◌, arith, drop, get_elem?,
  get_elem?-drop, drop-next, write_bytes, ◌>>=◌,
}

-- `ntohs` of the two bytes at `ptr`.
unfoldable pub u8n_to_u16h : List ℕ → ℕ → Option ℕ
u8n_to_u16h buf ptr = do b0 ← get_elem? buf ptr; b1 ← get_elem? buf (ptr + 1); some (b0 * 256 + b1)

-- `ntohl` of the four bytes at `ptr`.
unfoldable pub u8n_to_u32h : List ℕ → ℕ → Option ℕ
u8n_to_u32h buf ptr = do
  b0 ← get_elem? buf ptr
  b1 ← get_elem? buf (ptr + 1)
  b2 ← get_elem? buf (ptr + 1 + 1)
  b3 ← get_elem? buf (ptr + 1 + 1 + 1)
  some (((b0 * 256 + b1) * 256 + b2) * 256 + b3)

unfoldable pub u8n_to_u8h : List ℕ → ℕ → Option ℕ
u8n_to_u8h buf ptr = get_elem? buf ptr

-- The bytes that `htons` and `htonl` put in memory.
unfoldable pub htons_bytes : ℕ → List ℕ
htons_bytes h = h / 2 ^ 8 % 2 ^ 8 ∷ h % 2 ^ 8 ∷ []

unfoldable pub htonl_bytes : ℕ → List ℕ
htonl_bytes h = h / 2 ^ 24 % 2 ^ 8 ∷ h / 2 ^ 16 % 2 ^ 8 ∷ h / 2 ^ 8 % 2 ^ 8 ∷ h % 2 ^ 8 ∷ []

unfoldable pub u16h_to_u8n : ℕ → List ℕ → ℕ → Option (List ℕ)
u16h_to_u8n h buf ptr = write_bytes buf ptr (htons_bytes h)

unfoldable pub u32h_to_u8n : ℕ → List ℕ → ℕ → Option (List ℕ)
u32h_to_u8n h buf ptr = write_bytes buf ptr (htonl_bytes h)

pub u8n_to_u8h-drop :
    (buf : List ℕ) (p h : ℕ) (rest : List ℕ) → drop p buf ≡ h ∷ rest → u8n_to_u8h buf p ≡ some h
unfolding u8n_to_u8h
u8n_to_u8h-drop buf p h rest e = get_elem?-drop buf p h rest e

-- A 16-bit integer that was written is read back.
pub u8n_to_u16h-htons_bytes :
    (buf : List ℕ) (p h : ℕ) (rest : List ℕ)
    → h < 2 ^ 16
    → drop p buf ≡ htons_bytes h ++ rest
    → u8n_to_u16h buf p ≡ some h
unfolding u8n_to_u16h htons_bytes
u8n_to_u16h-htons_bytes buf p h rest lt e =
    let e1 = drop-next buf p _ _ e in
    rw (get_elem?-drop buf p _ _ e, get_elem?-drop buf (p + 1) _ _ e1) (ground arith)

-- A 32-bit integer that was written is read back.
pub u8n_to_u32h-htonl_bytes :
    (buf : List ℕ) (p h : ℕ) (rest : List ℕ)
    → h < 2 ^ 32
    → drop p buf ≡ htonl_bytes h ++ rest
    → u8n_to_u32h buf p ≡ some h
unfolding u8n_to_u32h htonl_bytes
u8n_to_u32h-htonl_bytes buf p h rest lt e =
    let e1 = drop-next buf p _ _ e in
    let e2 = drop-next buf (p + 1) _ _ e1 in
    let e3 = drop-next buf (p + 1 + 1) _ _ e2 in
    rw
      (
        get_elem?-drop buf p _ _ e,
        get_elem?-drop buf (p + 1) _ _ e1,
        get_elem?-drop buf (p + 1 + 1) _ _ e2,
        get_elem?-drop buf (p + 1 + 1 + 1) _ _ e3,
      )
      (ground arith)
