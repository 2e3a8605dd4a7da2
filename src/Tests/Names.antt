-- ===== src/Tests/Names.antt =====
-- Names of src/storage/message.c: a compressed name, two pointers to each other, a reversed name, and
-- a dotted one.
use baka_dns.Base.{
  ℕ, ◌+◌, ◌≤◌, ◌≡◌, ap, ◌⊎◌, inl, inr, refl, none, some, List, [], ◌∷◌, ◌++◌, length, zeroed, drop,
  arith, write_bytes, write_byte, length-zeroed,
}
use mathlib.Core.List.{reverse}
use baka_dns.Message.{ret}
use baka_dns.Database.{format_domain, strtok, push_token, format_tokens}
use baka_dns.Database.Format.{dotted, format_domain-dotted}
use baka_dns.Message.Labels.{Label, label_bytes, encode_labels}
use baka_dns.Message.Name.{DomainRead, read_domain, read_domain_loop}
use baka_dns.Message.Name.Rfc.{
  NameAt, root, label, pointed, rounds, ArePlain, read_domain-NameAt, read_domain_agrees,
  read_domain_cut,
}
use baka_dns.Message.Name.Complete.{PointerAt, read_domain_cycle}
use baka_dns.Message.Reverse.{domain_rev}
use baka_dns.Message.Reverse.Correct.{domain_rev-encode_labels}

-- The name c at 0, and the name ab.c at 3 with a pointer to it.
abbrev packet : List ℕ
packet = 1 ∷ 99 ∷ 0 ∷ 2 ∷ 97 ∷ 98 ∷ 192 ∷ 0 ∷ []

compressed : NameAt packet 3 ((97 ∷ 98 ∷ []) ∷ (99 ∷ []) ∷ []) 5
compressed = label (97 ∷ 98 ∷ []) (192 ∷ 0 ∷ []) (omega arith) (omega arith) refl (
    pointed 0 0 (omega arith) (omega arith) refl refl (
      label (99 ∷ []) (0 ∷ 2 ∷ 97 ∷ 98 ∷ 192 ∷ 0 ∷ []) (omega arith) (omega arith) refl
        (root refl)))

compressed-ArePlain : ArePlain ((97 ∷ 98 ∷ []) ∷ (99 ∷ []) ∷ [])
compressed-ArePlain = ground arith

bytes_of_labels : label_bytes ((97 ∷ 98 ∷ []) ∷ (99 ∷ []) ∷ []) ≡ 2 ∷ 97 ∷ 98 ∷ 1 ∷ 99 ∷ []
unfolding label_bytes
bytes_of_labels = refl

abbrev buffer : List ℕ
buffer = 9 ∷ 9 ∷ 9 ∷ 9 ∷ 9 ∷ 9 ∷ 9 ∷ []

abbrev result : DomainRead
result = record { dest = 2 ∷ 97 ∷ 98 ∷ 1 ∷ 99 ∷ 9 ∷ 9 ∷ []; len = 6; offset = 5 }

written : write_bytes buffer 0 (label_bytes ((97 ∷ 98 ∷ []) ∷ (99 ∷ []) ∷ [])) ≡ some result.dest
unfolding write_bytes write_byte label_bytes
written = refl

enough : rounds compressed ≤ 7
unfolding rounds compressed
enough = omega arith

read_domain-NameAt_example :
    read_domain 7 packet 3 buffer 0
    ≡ some (record {
      dest = result.dest;
      len = length (label_bytes ((97 ∷ 98 ∷ []) ∷ (99 ∷ []) ∷ [])) + 1;
      offset = 5;
    })
read_domain-NameAt_example =
    read_domain-NameAt compressed 7 buffer result.dest 0 compressed-ArePlain enough written

reads : read_domain 9 packet 3 buffer 0 ≡ some result
unfolding read_domain read_domain_loop write_byte
reads = refl

read_domain_agrees_example :
    (write_bytes buffer 0 (label_bytes ((97 ∷ 98 ∷ []) ∷ (99 ∷ []) ∷ [])) ≡ some result.dest)
    × (result.len ≡ length (label_bytes ((97 ∷ 98 ∷ []) ∷ (99 ∷ []) ∷ [])) + 1)
    × (result.offset ≡ 5)
read_domain_agrees_example =
    read_domain_agrees compressed 9 buffer 0 result compressed-ArePlain reads

-- The label a, 0, b, and the label c.
abbrev binary : List ℕ
binary = 3 ∷ 97 ∷ 0 ∷ 98 ∷ 1 ∷ 99 ∷ 0 ∷ []

cut_written : write_bytes buffer 0 (3 ∷ 97 ∷ []) ≡ some (3 ∷ 97 ∷ 9 ∷ 9 ∷ 9 ∷ 9 ∷ 9 ∷ [])
unfolding write_bytes write_byte
cut_written = refl

read_domain_cut_example :
    read_domain 9 binary 0 buffer 0
    ≡ some (record { dest = 3 ∷ 97 ∷ 9 ∷ 9 ∷ 9 ∷ 9 ∷ 9 ∷ []; len = 3; offset = 3 })
read_domain_cut_example =
    read_domain_cut binary (97 ∷ []) (98 ∷ []) (1 ∷ 99 ∷ 0 ∷ []) 0 9 buffer
      (3 ∷ 97 ∷ 9 ∷ 9 ∷ 9 ∷ 9 ∷ 9 ∷ []) 0 refl (omega arith) (ground arith) (omega arith)
      cut_written

-- Two pointers, each to the other.
abbrev loop : List ℕ
loop = 192 ∷ 2 ∷ 192 ∷ 0 ∷ []

abbrev InLoop : ℕ → Type 0
InLoop s = (s ≡ 0) ⊎ (s ≡ 2)

loop_closed : (s : ℕ) → InLoop s → (t : ℕ) × PointerAt loop s t × InLoop t
loop_closed s (inl e) = (
  2,
  rw e
      (record { high = 192; low = 2; high_at = refl; marked = refl; low_at = refl; points = refl }),
  inr refl,
)
loop_closed s (inr e) = (
  0,
  rw e
      (record { high = 192; low = 0; high_at = refl; marked = refl; low_at = refl; points = refl }),
  inl refl,
)

read_domain_cycle_example : read_domain 1000000 loop 0 (zeroed 512) 0 ≡ none
read_domain_cycle_example =
    read_domain_cycle loop InLoop loop_closed 0 (inl refl) 1000000 (zeroed 512) 0

abbrev host : List Label
host = (119 ∷ 119 ∷ 119 ∷ []) ∷ (97 ∷ 98 ∷ []) ∷ (99 ∷ []) ∷ []

label_bytes-host : label_bytes host ≡ 3 ∷ 119 ∷ 119 ∷ 119 ∷ 2 ∷ 97 ∷ 98 ∷ 1 ∷ 99 ∷ []
unfolding label_bytes
label_bytes-host = refl

encode_labels-host : encode_labels host ≡ 3 ∷ 119 ∷ 119 ∷ 119 ∷ 2 ∷ 97 ∷ 98 ∷ 1 ∷ 99 ∷ 0 ∷ []
unfolding label_bytes encode_labels
encode_labels-host = refl

domain_rev-encode_labels_example :
    domain_rev 4 (zeroed 16) (encode_labels host ++ [])
    ≡ some (encode_labels (reverse host) ++ drop (length (encode_labels host)) (zeroed 16))
domain_rev-encode_labels_example =
    domain_rev-encode_labels 4 host [] (zeroed 16) (omega arith) (omega arith)
      (omega (arith, ap length label_bytes-host))
      (omega (arith, ap length encode_labels-host, length-zeroed 16))

abbrev host_text : List ℕ
host_text = 119 ∷ 119 ∷ 119 ∷ 46 ∷ 97 ∷ 98 ∷ 46 ∷ 99 ∷ 0 ∷ []

format_domain_dots :
    format_domain (5 ∷ 5 ∷ 5 ∷ 5 ∷ 5 ∷ 5 ∷ []) (46 ∷ 97 ∷ 46 ∷ 46 ∷ 98 ∷ 46 ∷ 0 ∷ [])
    ≡ some (ret 5, 1 ∷ 97 ∷ 1 ∷ 98 ∷ 0 ∷ 5 ∷ [])
unfolding format_domain strtok push_token format_tokens write_bytes write_byte
format_domain_dots = refl

format_domain-dotted_example :
    format_domain
      (zeroed 16)
      (dotted (119 ∷ 119 ∷ 119 ∷ []) ((97 ∷ 98 ∷ []) ∷ (99 ∷ []) ∷ []) ++ (9 ∷ []))
    ≡ some (
      ret (length (encode_labels host)),
      encode_labels host ++ drop (length (encode_labels host)) (zeroed 16),
    )
format_domain-dotted_example =
    format_domain-dotted (119 ∷ 119 ∷ 119 ∷ []) ((97 ∷ 98 ∷ []) ∷ (99 ∷ []) ∷ []) (9 ∷ [])
      (zeroed 16)
      (
        record { plain = omega arith; inhabited = omega arith; short = omega arith },
        (
          record { plain = omega arith; inhabited = omega arith; short = omega arith },
          (record { plain = omega arith; inhabited = omega arith; short = omega arith }, tt),
        ),
      )
      (omega (arith, ap length encode_labels-host, length-zeroed 16))
