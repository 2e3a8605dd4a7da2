-- ===== src/Message/Reverse.antt =====
-- `domain_rev` of src/storage/message.c, which reverses the labels of a name through a stack of bytes.
pub mod Correct
use baka_dns.Base.{
  ℕ, zero, suc, ◌+◌, ◌-◌, Bool, true, false, ◌&&◌, Option, none, some, List, ltb, leb, ◌==◌,
  if◌then◌else◌, ◌>>=◌, get_elem?, zeroed, read_bytes, write_bytes, write_byte,
}
use baka_dns.Message.{domain_buf_len}

-- The first loop: `src` at position `s`, the stack and `sptr`. The fuel bounds the labels.
unfoldable pub push_labels : ℕ → List ℕ → ℕ → List ℕ → ℕ → Option (List ℕ × ℕ)
push_labels zero src s stack sptr = none
push_labels (suc fuel) src s stack sptr = do
  n ← get_elem? src s
  elim (n == 0) [
    | true ↦ some (stack, sptr)
    | false ↦ do
      label ← read_bytes src (s + 1) n
      stack1 ← write_bytes stack sptr label
      stack2 ← write_byte stack1 (sptr + n) n
      push_labels fuel src (s + n + 1) stack2 (sptr + n + 1)
  ]

-- The second loop, with `top` for `sptr + 1`: `sptr` is -1 when the stack is used up. A label that
-- begins before the stack is a fault.
unfoldable pub pop_labels : ℕ → List ℕ → ℕ → List ℕ → ℕ → Option (List ℕ × ℕ)
pop_labels zero stack top dest d = none
pop_labels (suc fuel) stack top dest d = elim (ltb 1 top) [
  | false ↦ some (dest, d)
  | true ↦ do
    n ← get_elem? stack (top - 1)
    elim (n == 0) [
      | true ↦ some (dest, d)
      | false ↦ elim (leb n (top - 1)) [
        | false ↦ none
        | true ↦ do
          label ← read_bytes stack (top - 1 - n) n
          dest1 ← write_bytes dest (d + 1) label
          dest2 ← write_byte dest1 d n
          pop_labels fuel stack (top - (n + 1)) dest2 (d + n + 1)
      ]
    ]
]

-- The destination afterwards.
unfoldable pub domain_rev : ℕ → List ℕ → List ℕ → Option (List ℕ)
domain_rev fuel dest src = do
  (stack, sptr) ← push_labels fuel src 0 (zeroed domain_buf_len) 0
  (dest', d) ← pop_labels fuel stack sptr dest 0
  write_byte dest' d 0
