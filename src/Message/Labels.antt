-- ===== src/Message/Labels.antt =====
-- Domain names as lists of labels, and their encoding in RFC 1035 section 3.1: each label behind its
-- length, and a zero byte at the end.
use baka_dns.Base.{ℕ, ◌<◌, ◌≡◌, refl, sym, ap, ◌∙◌, List, [], ◌∷◌, ◌++◌, append_assoc, length}

abbrev pub Label : Type 0
Label = List ℕ

-- The encoding without the zero byte.
unfoldable pub label_bytes : List Label → List ℕ
label_bytes [] = []
label_bytes (l ∷ ls) = length l ∷ (l ++ label_bytes ls)

unfoldable pub encode_labels : List Label → List ℕ
unfolding label_bytes
encode_labels ls = label_bytes ls ++ (0 ∷ [])

-- A label is not empty, and its length fits in a byte.
abbrev pub IsLabel : Label → Type 0
IsLabel l = (0 < length l) × (length l < 256)

pub label_bytes-append :
    (ls ms : List Label) → label_bytes (ls ++ ms) ≡ label_bytes ls ++ label_bytes ms
unfolding label_bytes
label_bytes-append [] ms = refl
label_bytes-append (l ∷ ls) ms =
    ap (λ k. length l ∷ (l ++ k)) (label_bytes-append ls ms)
    ∙ ap (◌∷◌ (length l)) (sym (append_assoc l (label_bytes ls) (label_bytes ms)))
