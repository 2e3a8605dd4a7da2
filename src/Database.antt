-- ===== src/Database.antt =====
-- src/storage/database.c: the tree `db.tree` as the state, with `insert_database`, `select_database`, and
-- the two string functions that prepare a line of the relay file.
pub mod Select
pub mod Format
pub mod Load
use mathlib.Core.List.{reverse}
use baka_dns.Base.{
  ℕ, zero, suc, ◌+◌, ◌%◌, ◌^◌, ◌-◌, Bool, true, false, ◌&&◌, Option, none, some, List, [], ◌∷◌,
  ◌++◌, ltb, leb, ◌==◌, if◌then◌else◌, ◌>>=◌, zeroed, write_bytes, write_byte, length,
}
use baka_dns.Message.{MessageQuestion, ResourceRecord, IntRet, ret, minus_one, domain_buf_len}
use baka_dns.Message.Name.{domain_len}
use baka_dns.Message.Reverse.{domain_rev}
use baka_dns.Trees.{TreeNode, rr_hash, tree_insert, tree_search}

-- The rounds of fuel for the loops over the labels of a name.
abbrev pub rounds : ℕ
rounds = 1024

-- `tolower` in the C locale.
abbrev pub tolower : ℕ → ℕ
tolower c = if leb 65 c && leb c 90 then c + 32 else c

unfoldable pub str_lower : List ℕ → Option (List ℕ)
str_lower [] = none
str_lower (c ∷ str) =
    let rest = str_lower str >>= λ str'. some (tolower c ∷ str') in
    if c == 0 then some (c ∷ str) else rest

-- `strtok` with the separator ".", called until it gives NULL: the parts between the dots that are
-- not empty. `token` holds the characters of the current part, the last one first.
unfoldable pub push_token : List ℕ → List (List ℕ) → List (List ℕ)
push_token [] tokens = tokens
push_token (c ∷ token) tokens = (c ∷ token) ∷ tokens

unfoldable pub strtok : List ℕ → List ℕ → Option (List (List ℕ))
strtok token [] = none
strtok token (c ∷ src) =
    let same = strtok (c ∷ token) src in
    let next = strtok [] src >>= λ tokens. some (push_token (reverse token) tokens) in
    if c == 0 then some (push_token (reverse token) []) else if c == 46 then next else same

-- The loop of `format_domain` over the tokens, with `dest` at position `d`, which is also `dlen`.
-- The length of a token is stored in a byte.
unfoldable pub format_tokens : List (List ℕ) → List ℕ → ℕ → Option (List ℕ × ℕ)
format_tokens [] dest d = some (dest, d)
format_tokens (token ∷ tokens) dest d = do
  dest1 ← write_byte dest d (length token % 2 ^ 8)
  dest2 ← write_bytes dest1 (d + 1) token
  format_tokens tokens dest2 (d + length token + 1)

-- The result and `dest`.
unfoldable pub format_domain : List ℕ → List ℕ → Option (IntRet × List ℕ)
format_domain dest src = strtok [] src >>= elim [
  | [] ↦ some (minus_one, dest)
  | token ∷ tokens ↦ do
    (dest1, d) ← format_tokens (token ∷ tokens) dest 0
    dest2 ← write_byte dest1 d 0
    some (ret (d + 1), dest2)
]

unfoldable pub insert_database : TreeNode → ResourceRecord → Option (IntRet × TreeNode)
insert_database tree rr = domain_len rr.name >>= elim [
  | minus_one ↦ some (minus_one, tree)
  | ret dlen ↦ do
    revbuf ← domain_rev rounds (zeroed domain_buf_len) rr.name
    tree_insert rounds rr_hash tree revbuf rr
]

-- The records stored in `dest`, whose number is the result.
unfoldable pub select_database : TreeNode → MessageQuestion → Option (List ResourceRecord)
select_database tree msgq = domain_len msgq.qname >>= elim [
  | minus_one ↦ some []
  | ret dlen ↦ do
    revbuf ← domain_rev rounds (zeroed domain_buf_len) msgq.qname
    tree_search rounds tree revbuf msgq.qtype
]
