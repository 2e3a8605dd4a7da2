-- ===== src/Database/Load.antt =====
-- `init_database` of src/storage/database.c on the lines that `getline` gives. A line is the list of
-- its characters without a terminator.
pub mod Line
pub mod Addresses
pub mod File
use mathlib.Core.Option
use baka_dns.Base.{
  ℕ, zero, suc, ◌+◌, Bool, true, false, ◌&&◌, ◌||◌, Option, none, some, List, [], ◌∷◌, ◌++◌, ltb,
  leb, ◌==◌, if◌then◌else◌, ◌>>=◌, length, zeroed,
}
use baka_dns.Message.{
  ResourceRecord, IntRet, ret, minus_one, domain_buf_len, domain_len_max, rrtype_a, rrtype_aaaa,
}
use baka_dns.Message.Record.{create_resource_record}
use baka_dns.Trees.{TreeNode, create_tree_node}
use baka_dns.Conf.{InetPton, ipv4_convert, ipv6_convert}
use baka_dns.Database.{str_lower, format_domain, insert_database}

-- `isspace` in the C locale.
abbrev pub is_space : ℕ → Bool
is_space c = c == 32 || (leb 9 c && leb c 13)

-- The white space that `%s` skips.
unfoldable pub skip_space : List ℕ → List ℕ
skip_space [] = []
skip_space (c ∷ s) = let rest = skip_space s in if is_space c then rest else c ∷ s

-- At most `width` characters up to white space or the end of the string, and what is left.
unfoldable pub scan_word : ℕ → List ℕ → List ℕ × List ℕ
scan_word zero s = ([], s)
scan_word (suc width) [] = ([], [])
scan_word (suc width) (c ∷ s) =
    let rest = scan_word width s in
    if is_space c || c == 0 then ([], c ∷ s) else (c ∷ rest.0, rest.1)

-- The word and its terminator in a buffer of 1024 bytes: a longer one is written past its end.
unfoldable pub store_word : List ℕ → Option (List ℕ)
store_word word = if ltb (length word) 1024 then some (word ++ (0 ∷ [])) else none

-- The local variables of `init_database` that keep their values from line to line, as C strings:
-- `none` is a buffer that was never written. And `db.tree`.
pub record Loading : Type 0 where
  pub ipbuf : Option (List ℕ)
  pub domainbuf : Option (List ℕ)
  pub formatd : List ℕ
  pub tree : TreeNode

-- `sscanf(linebuf, "%1024s%1024s", ipbuf, domainbuf)`: a word that is missing leaves its buffer.
unfoldable pub scan_line : List ℕ → Loading → Option Loading
scan_line line s =
    let ip = scan_word 1024 (skip_space line) in
    let domain = scan_word 1024 (skip_space ip.1) in
    elim ip.0 [
      | [] ↦ some s
      | c ∷ cs ↦ store_word (c ∷ cs) >>= λ ipbuf.
          let s1 = record s { ipbuf = some ipbuf } in
          elim domain.0 [
            | [] ↦ some s1
            | d ∷ ds ↦
                store_word (d ∷ ds) >>= λ domainbuf. some (record s1 { domainbuf = some domainbuf })
          ]
    ]

-- What `strtok` leaves of a string: it ends behind the first token.
unfoldable pub cut_token : Bool → List ℕ → List ℕ
cut_token started [] = []
cut_token started (c ∷ s) =
    let skipped = cut_token false s in
    let taken = cut_token true s in
    if c == 0
    then c ∷ s
    else if c == 46
    then (if started then 0 ∷ s else c ∷ skipped)
    else c ∷ taken

-- The type of the record and `formatip`, unless the string is no address.
unfoldable pub convert_address : InetPton → List ℕ → Option (ℕ × List ℕ)
convert_address pton ipbuf =
    let ipv4 = ipv4_convert pton ipbuf [] in
    let ipv6 = ipv6_convert pton ipbuf [] in
    elim ipv4.0 [
      | ret _ ↦ some (rrtype_a, ipv4.1)
      | minus_one ↦ elim ipv6.0 [ ret _ ↦ some (rrtype_aaaa, ipv6.1) | minus_one ↦ none ]
    ]

-- The size of the data, by the type.
abbrev pub size_of_type : ℕ → ℕ
size_of_type rrtype = if rrtype == rrtype_a then 4 else 16

-- How the loop goes on: with the next line, or the thread ends.
unfoldable pub add_record : Loading → ℕ → List ℕ → Option (Option Loading)
add_record s rrtype formatip =
    create_resource_record s.formatd rrtype 1 0 (size_of_type rrtype) formatip >>= elim [
      | none ↦ some none
      | some rr ↦ do (_, tree) ← insert_database s.tree rr; some (some (record s { tree = tree }))
    ]

-- The body of the loop for one line.
unfoldable pub load_line : InetPton → List ℕ → Loading → Option (Option Loading)
load_line pton line s = elim (ltb 2048 (length line)) [
  | true ↦ some (some s)
  | false ↦ do
    s1 ← scan_line line s
    domainbuf ← s1.domainbuf
    lower ← str_lower domainbuf
    ipbuf ← s1.ipbuf
    elim (convert_address pton ipbuf) [
      | none ↦ some (some (record s1 { domainbuf = some lower }))
      | some address ↦ do
        (dlen, formatd) ← format_domain s1.formatd lower
        let s2 = record s1 { domainbuf = some (cut_token false lower); formatd = formatd }
        elim dlen [
          | minus_one ↦ some (some s2)
          | ret n ↦ elim (leb domain_len_max n) [
            | true ↦ some (some s2)
            | false ↦ add_record s2 address.0 address.1
          ]
        ]
    ]
]

unfoldable pub load_lines : InetPton → List (List ℕ) → Loading → Option (Option Loading)
load_lines pton [] s = some (some s)
load_lines pton (line ∷ lines) s =
    load_line pton line s >>= elim [ none ↦ some none | some s1 ↦ load_lines pton lines s1 ]

-- `init_database` for a file that cannot be opened, or its lines: the result and `db.tree`. The inner
-- `none` is `pthread_exit`.
unfoldable pub init_database :
    InetPton → Option (List (List ℕ)) → Option (Option (IntRet × TreeNode))
init_database pton none = some (some (minus_one, create_tree_node))
init_database pton (some lines) =
    let start : Loading = record {
      ipbuf = none;
      domainbuf = none;
      formatd = zeroed domain_buf_len;
      tree = create_tree_node;
    } in
    load_lines pton lines start >>= elim [ none ↦ some none | some s ↦ some (some (ret 1, s.tree)) ]
