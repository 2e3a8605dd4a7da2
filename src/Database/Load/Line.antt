-- ===== src/Database/Load/Line.antt =====
-- One line of the relay file: an IPv4 address and a name, as the loop of `init_database` in
-- src/storage/database.c reads it.
use baka_dns.Base.{
  ℕ, zero, suc, ◌+◌, ◌≤◌, ◌<◌, ◌≡◌, ◌≢◌, refl, sym, ap, ◌∙◌, true, false, none, some, List, [], ◌∷◌,
  ◌++◌, map, map-append, append_assoc, append-nil, All, arith, length, length-append, length-map,
  drop, length-drop, lt→ltb, le→ltb, lt→leb, ==_ne, ◌>>=◌, read_bytes, read_bytes-drop,
}
use baka_dns.Message.{ResourceRecord, IntRet, ret, minus_one, rrtype_a, rrtype_aaaa}
use baka_dns.Message.Labels.{Label, label_bytes, encode_labels}
use baka_dns.Message.Name.{domain_len}
use baka_dns.Message.Record.{create_resource_record}
use baka_dns.Database.{tolower, str_lower, format_domain, insert_database}
use baka_dns.Database.Format.{IsToken, dotted, format_domain-dotted}
use baka_dns.Trees.{TreeNode}
use baka_dns.Message.Wire.Write.{strnlen-plain, read_bytes_whole}
use baka_dns.Database.Select.{IsDomain}
use baka_dns.Conf.{InetPton, ipv4_convert, ipv6_convert}
use baka_dns.Database.Load.{
  is_space, skip_space, scan_word, store_word, Loading, scan_line, cut_token, convert_address,
  add_record, load_line,
}

-- A character of a word.
abbrev pub IsInk : ℕ → Type 0
IsInk c = (is_space c ≡ false) × (c ≢ 0)

scan_word-IsInk :
    (w : List ℕ) (width c : ℕ) (s : List ℕ)
    → All IsInk w
    → length w < width
    → is_space c ≡ true
    → scan_word width (w ++ (c ∷ s)) ≡ (w, c ∷ s)
unfolding scan_word
scan_word-IsInk w zero c s h lt stop = absurd (omega arith)
scan_word-IsInk [] (suc width) c s h lt stop = rw (stop, scan_word) refl
scan_word-IsInk (x ∷ w) (suc width) c s h lt stop =
    rw (h.0.0, ==_ne x 0 h.0.1, scan_word)
      (rw (scan_word-IsInk w width c s h.1 (omega arith) stop) refl)

skip_space-IsInk : (w s : List ℕ) → All IsInk w → 0 < length w → skip_space (w ++ s) ≡ w ++ s
unfolding skip_space
skip_space-IsInk [] s h k = absurd (omega arith)
skip_space-IsInk (c ∷ w) s h k = rw (h.0.0, skip_space) refl

skip_blank : (s : List ℕ) → skip_space (32 ∷ s) ≡ skip_space s
unfolding skip_space
skip_blank s = refl

store_word-some : (w : List ℕ) → length w < 1024 → store_word w ≡ some (w ++ (0 ∷ []))
unfolding store_word
store_word-some w h = rw (lt→ltb (length w) 1024 h) refl

-- The line: the address, a blank, the name and a line feed.
abbrev pub line_of : List ℕ → List ℕ → List ℕ
line_of ip name = ip ++ (32 ∷ (name ++ (10 ∷ [])))

-- Two words that fit their buffers.
pub record IsLine (ip name : List ℕ) : Type 0 where
  pub ip_ink : All IsInk ip
  pub ip_inhabited : 0 < length ip
  pub name_ink : All IsInk name
  pub name_inhabited : 0 < length name
  pub short : length (line_of ip name) ≤ 2048
  pub ip_short : length ip < 1024
  pub name_short : length name < 1024

scan_line-line_of :
    (ip name : List ℕ) (s : Loading)
    → IsLine ip name
    → scan_line (line_of ip name) s
      ≡ some (record s { ipbuf = some (ip ++ (0 ∷ [])); domainbuf = some (name ++ (0 ∷ [])) })
unfolding scan_line
scan_line-line_of [] name s h = absurd (omega (arith, h.ip_inhabited))
scan_line-line_of (c ∷ ip) [] s h = absurd (omega (arith, h.name_inhabited))
scan_line-line_of (c ∷ ip) (d ∷ name) s h =
    let rest = 32 ∷ ((d ∷ name) ++ (10 ∷ [])) in
    let e1 : scan_word 1024 (skip_space ((c ∷ ip) ++ rest)) ≡ (c ∷ ip, rest) =
      ap (scan_word 1024) (skip_space-IsInk (c ∷ ip) rest h.ip_ink h.ip_inhabited)
      ∙ scan_word-IsInk (c ∷ ip) 1024 32 _ h.ip_ink h.ip_short refl in
    let e2 : scan_word 1024 (skip_space rest) ≡ (d ∷ name, 10 ∷ []) =
      ap (scan_word 1024) (
        skip_blank ((d ∷ name) ++ (10 ∷ []))
        ∙ skip_space-IsInk (d ∷ name) (10 ∷ []) h.name_ink h.name_inhabited)
      ∙ scan_word-IsInk (d ∷ name) 1024 10 [] h.name_ink h.name_short refl in
    let e3 = ap (λ (r : List ℕ × List ℕ). scan_word 1024 (skip_space r.1)) e1 ∙ e2 in
    rw (e1, scan_line)
      (rw (store_word-some (c ∷ ip) h.ip_short, ◌>>=◌)
        (rw e3 (rw (store_word-some (d ∷ name) h.name_short, ◌>>=◌) refl)))

-- Lower case changes neither the dots nor the end of a string.
str_lower-map :
    (w : List ℕ) → All (λ c. c ≢ 0) w → str_lower (w ++ (0 ∷ [])) ≡ some (map tolower w ++ (0 ∷ []))
unfolding str_lower
str_lower-map [] h = refl
str_lower-map (c ∷ w) h = rw (==_ne c 0 h.0, str_lower) (rw (str_lower-map w h.1, ◌>>=◌) refl)

-- The labels with a dot between them.
unfoldable pub joined : Label → List Label → List ℕ
joined l [] = l
joined l (m ∷ ls) = l ++ (46 ∷ joined m ls)

dotted-joined :
    (l : Label) (ls : List Label)
    → map tolower (joined l ls) ++ (0 ∷ []) ≡ dotted (map tolower l) (map (map tolower) ls)
unfolding joined dotted
dotted-joined l [] = refl
dotted-joined l (m ∷ ls) =
    ap (λ s. s ++ (0 ∷ [])) (map-append tolower l (46 ∷ joined m ls))
    ∙ append_assoc (map tolower l) (46 ∷ map tolower (joined m ls)) (0 ∷ [])
    ∙ ap (λ s. map tolower l ++ (46 ∷ s)) (dotted-joined m ls)

tolower_plain :
    (w : List ℕ) → All (λ c. (c ≢ 0) × (c ≢ 46)) w → All (λ c. (c ≢ 0) × (c ≢ 46)) (map tolower w)
tolower_plain [] h = tt
tolower_plain (c ∷ w) h = ((ground arith, ground arith), tolower_plain w h.1)

lower_IsToken : (l : Label) → IsToken l → IsToken (map tolower l)
lower_IsToken l h = record {
  plain = tolower_plain l h.plain;
  inhabited = omega (arith, length-map l tolower, h.inhabited);
  short = omega (arith, length-map l tolower, h.short);
}

lower_IsTokens : (ls : List Label) → All IsToken ls → All IsToken (map (map tolower) ls)
lower_IsTokens [] h = tt
lower_IsTokens (l ∷ ls) h = (lower_IsToken l h.0, lower_IsTokens ls h.1)

-- The record of a line.
abbrev pub line_record : List Label → List ℕ → ResourceRecord
line_record ls address = record {
  name = encode_labels ls;
  type = rrtype_a;
  class = 1;
  ttl = 0;
  rdlength = 4;
  rdata = some address;
}

without_zero : (w : List ℕ) → All IsInk w → All (λ c. c ≢ 0) w
without_zero [] h = tt
without_zero (c ∷ w) h = (h.0.1, without_zero w h.1)

-- The encoded name in front of the old contents of its buffer.
domain_len-encode_labels :
    (ls : List Label) (rest : List ℕ)
    → IsDomain ls
    → domain_len (encode_labels ls ++ rest) ≡ some (ret (length (encode_labels ls)))
unfolding domain_len encode_labels
domain_len-encode_labels ls rest d =
    let bytes = label_bytes ls in
    let n = length-append bytes (0 ∷ []) in
    rw
      (
        append_assoc bytes (0 ∷ []) rest,
        strnlen-plain 512 bytes rest d.plain (omega (arith, d.short)),
        ◌>>=◌,
      )
      (rw (le→ltb 255 (length bytes + 1) (omega (arith, d.short))) (ap (λ k. some (ret k)) (sym n)))

create_resource_record-line_record :
    (ls : List Label) (rest address : List ℕ)
    → IsDomain ls
    → length address ≡ 4
    → create_resource_record (encode_labels ls ++ rest) rrtype_a 1 0 4 address
      ≡ some (some (line_record ls address))
unfolding create_resource_record
create_resource_record-line_record ls rest address d four =
    let name = encode_labels ls in
    let bytes : read_bytes address 0 4 ≡ some address =
      ap (read_bytes address 0) (sym four) ∙ read_bytes_whole address in
    rw (domain_len-encode_labels ls rest d, ◌>>=◌)
      (rw (read_bytes-drop (name ++ rest) 0 name rest refl, ◌>>=◌) (rw (bytes, ◌>>=◌) refl))

convert_address-inet :
    (pton : InetPton) (ipbuf address : List ℕ)
    → pton.inet ipbuf ≡ some address
    → convert_address pton ipbuf ≡ some (rrtype_a, address)
unfolding convert_address ipv4_convert
convert_address-inet pton ipbuf address e =
    let done : ipv4_convert pton ipbuf [] ≡ (ret 1, address) = rw (e, ipv4_convert) refl in
    ap
      (λ (ipv4 : IntRet × List ℕ). elim ipv4.0 [
        | ret _ ↦ some (rrtype_a, ipv4.1)
        | minus_one ↦ elim (ipv6_convert pton ipbuf []).0 [
          | ret _ ↦ some (rrtype_aaaa, (ipv6_convert pton ipbuf []).1)
          | minus_one ↦ none
        ]
      ])
      done

-- A line with an IPv4 address and a name in any case, whose parts are joined by single dots: the loop
-- inserts the A record of the name in lower case with this address and goes on with the next line,
-- whatever the earlier lines left in the buffers. The encoded name has less than 255 bytes.
pub load_line-line_of :
    (pton : InetPton) (ip address : List ℕ) (l : Label) (ls : List Label) (s : Loading)
    (result : IntRet) (tree' : TreeNode)
    → IsLine ip (joined l ls)
    → All IsToken (l ∷ ls)
    → IsDomain (map (map tolower) (l ∷ ls))
    → length (encode_labels (map (map tolower) (l ∷ ls))) < 255
    → length s.formatd ≡ 512
    → pton.inet (ip ++ (0 ∷ [])) ≡ some address
    → length address ≡ 4
    → insert_database s.tree (line_record (map (map tolower) (l ∷ ls)) address)
      ≡ some (result, tree')
    → (s' : Loading) × (load_line pton (line_of ip (joined l ls)) s ≡ some (some s'))
      × (s'.tree ≡ tree')
      × (length s'.formatd ≡ 512)
unfolding load_line add_record
load_line-line_of pton ip address l ls s result tree' h tokens d short room is_address four
      inserts =
    let name = joined l ls in
    let lower = map (map tolower) (l ∷ ls) in
    let encoded = encode_labels lower in
    let text = dotted (map tolower l) (map (map tolower) ls) in
    let lowered : str_lower (name ++ (0 ∷ [])) ≡ some text =
      str_lower-map name (without_zero name h.name_ink) ∙ ap some (dotted-joined l ls) in
    let formatted : format_domain s.formatd text
        ≡ some (ret (length encoded), encoded ++ drop (length encoded) s.formatd) =
      ap (format_domain s.formatd) (sym (append-nil text))
      ∙ format_domain-dotted (map tolower l) (map (map tolower) ls) [] s.formatd
          (lower_IsTokens (l ∷ ls) tokens) (omega arith) in
    let made =
      create_resource_record-line_record lower (drop (length encoded) s.formatd) address d four in
    (
      record {
        ipbuf = some (ip ++ (0 ∷ []));
        domainbuf = some (cut_token false text);
        formatd = encoded ++ drop (length encoded) s.formatd;
        tree = tree';
      },
      rw (le→ltb 2048 (length (line_of ip name)) h.short, load_line)
          (rw (scan_line-line_of ip name s h, ◌>>=◌)
            (rw (lowered, ◌>>=◌)
              (rw (convert_address-inet pton (ip ++ (0 ∷ [])) address is_address, formatted, ◌>>=◌)
                (rw (lt→leb 255 (length encoded) short)
                  (rw (made, ◌>>=◌) (rw (inserts, ◌>>=◌) refl)))))),
      refl,
      omega (
        arith,
        length-append encoded (drop (length encoded) s.formatd),
        length-drop (length encoded) s.formatd,
      ),
    )
