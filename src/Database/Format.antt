-- ===== src/Database/Format.antt =====
-- `format_domain` of src/storage/database.c on dotted names.
use mathlib.Core.List.{reverse, reverse-cons, reverse-reverse}
use native.Mathlib.Nat.{add_assoc, add-zero, mod-eq_of_lt}
use baka_dns.Base.{
  ℕ, suc, ◌+◌, ◌≤◌, ◌<◌, ◌≡◌, ◌≢◌, refl, sym, ap, ◌∙◌, Option, none, some, List, [], ◌∷◌, ◌++◌,
  ◌>>=◌, length, length-append, append_assoc, append-nil, All, arith, ==_ne, drop, write_bytes,
  write_byte, write_bytes-append, write_byte-write_bytes, write_bytes-append_list, >>=_assoc,
}
use baka_dns.Message.{IntRet, ret}
use baka_dns.Message.Labels.{Label, label_bytes, encode_labels}
use baka_dns.Database.{strtok, push_token, format_tokens, format_domain}

-- A part between two dots: neither the terminator nor a dot, and not empty.
pub record IsToken (l : Label) : Type 0 where
  pub plain : All (λ c. (c ≢ 0) × (c ≢ 46)) l
  pub inhabited : 0 < length l
  pub short : length l < 256

-- The labels, joined by dots, with the terminator.
unfoldable pub dotted : Label → List Label → List ℕ
dotted l [] = l ++ (0 ∷ [])
dotted l (m ∷ ls) = l ++ (46 ∷ dotted m ls)

strtok_within :
    (l token src : List ℕ)
    → All (λ c. (c ≢ 0) × (c ≢ 46)) l
    → strtok token (l ++ src) ≡ strtok (reverse l ++ token) src
unfolding strtok
strtok_within [] token src h = refl
strtok_within (c ∷ l) token src h = rw (==_ne c 0 h.0.0) (
    rw (==_ne c 46 h.0.1) (
      strtok_within l (c ∷ token) src h.1
      ∙ ap (λ t. strtok t src)
          (sym
            (ap (λ r. r ++ token) (reverse-cons c l) ∙ append_assoc (reverse l) (c ∷ []) token))))

push_token_inhabited : (l : Label) (ls : List Label) → 0 < length l → push_token l ls ≡ l ∷ ls
unfolding push_token
push_token_inhabited [] ls h = absurd (omega arith)
push_token_inhabited (c ∷ l) ls h = refl

-- The characters of a token, in order again.
same : (l : List ℕ) → reverse (reverse l ++ []) ≡ l
same l = ap reverse (append-nil (reverse l)) ∙ reverse-reverse l

strtok-dotted :
    (l : Label) (ls : List Label) (rest : List ℕ)
    → All IsToken (l ∷ ls)
    → strtok [] (dotted l ls ++ rest) ≡ some (l ∷ ls)
unfolding strtok dotted
strtok-dotted l [] rest h =
    ap (strtok []) (append_assoc l (0 ∷ []) rest)
    ∙ strtok_within l [] (0 ∷ rest) h.0.plain
    ∙ ap (λ (t : List ℕ). some (push_token t [])) (same l)
    ∙ ap some (push_token_inhabited l [] h.0.inhabited)
strtok-dotted l (m ∷ ls) rest h =
    ap (strtok []) (append_assoc l (46 ∷ dotted m ls) rest)
    ∙ strtok_within l [] (46 ∷ (dotted m ls ++ rest)) h.0.plain
    ∙ rw (strtok-dotted m ls rest h.1, ◌>>=◌)
        (ap (λ (t : List ℕ). some (push_token t (m ∷ ls))) (same l)
          ∙ ap some (push_token_inhabited l (m ∷ ls) h.0.inhabited))

one-add : (n : ℕ) → 1 + n ≡ suc n
one-add n = omega arith

suc-add : (n m : ℕ) → suc n + m ≡ suc (n + m)
suc-add n m = omega arith

format_tokens-label_bytes :
    (ls : List Label) (dest : List ℕ) (d : ℕ)
    → All IsToken ls
    → format_tokens ls dest d
      ≡ (write_bytes dest d (label_bytes ls) >>= λ dest'. some (dest', d + length (label_bytes ls)))
unfolding format_tokens label_bytes write_bytes
format_tokens-label_bytes [] dest d h = ap (λ (k : ℕ). some (dest, k)) (sym (add-zero d))
format_tokens-label_bytes (l ∷ ls) dest d h =
    let e : d + length l + 1 ≡ d + 1 + length l = omega arith in
    rw (mod-eq_of_lt h.0.short, e)
      (simp (
        one-add,
        suc-add,
        write_bytes-append_list,
        >>=_assoc,
        length-append,
        add_assoc,
        λ (b : List ℕ) (p : ℕ). format_tokens-label_bytes ls b p h.1,
      ))

-- The terminator behind what the tokens wrote.
regroup :
    (m : Option (List ℕ)) (k : ℕ)
    → ◌>>=◌ {B = IntRet × List ℕ}
        (◌>>=◌ {B = List ℕ × ℕ} m (λ b. some (b, k)))
        (λ (b, d). write_byte b d 0 >>= λ c. some (ret (d + 1), c))
      ≡ ◌>>=◌ {B = IntRet × List ℕ} (m >>= λ b. write_byte b k 0) (λ c. some (ret (k + 1), c))
regroup none k = refl
regroup (some b) k = refl

terminated :
    (bytes dest : List ℕ)
    → length (bytes ++ (0 ∷ [])) ≤ length dest
    → (write_bytes dest 0 bytes >>= λ b. write_byte b (0 + length bytes) 0)
      ≡ some ((bytes ++ (0 ∷ [])) ++ drop (length (bytes ++ (0 ∷ []))) dest)
terminated bytes dest room = simp write_byte-write_bytes (
    sym (write_bytes-append_list dest 0 bytes (0 ∷ []))
    ∙ write_bytes-append [] (bytes ++ (0 ∷ [])) dest 0 refl room)

-- `format_domain` of a dotted name, whose parts are not empty and shorter than 256 bytes, writes the
-- encoding of the parts as labels, leaves the rest of the buffer, and returns the number of bytes
-- written, if the buffer has room for them.
pub format_domain-dotted :
    (l : Label) (ls : List Label) (rest dest : List ℕ)
    → All IsToken (l ∷ ls)
    → length (encode_labels (l ∷ ls)) ≤ length dest
    → format_domain dest (dotted l ls ++ rest)
      ≡ some (
        ret (length (encode_labels (l ∷ ls))),
        encode_labels (l ∷ ls) ++ drop (length (encode_labels (l ∷ ls))) dest,
      )
unfolding format_domain encode_labels
format_domain-dotted l ls rest dest h room =
    let lb = label_bytes (l ∷ ls) in
    let n : 0 + length lb + 1 ≡ length (lb ++ (0 ∷ [])) =
      omega (arith, length-append lb (0 ∷ [])) in
    rw (strtok-dotted l ls rest h, ◌>>=◌, format_tokens-label_bytes (l ∷ ls) dest 0 h)
      (regroup (write_bytes dest 0 lb) (0 + length lb)
        ∙ rw (terminated lb dest room, ◌>>=◌)
            (ap (λ (k : ℕ). some (ret k, (lb ++ (0 ∷ [])) ++ drop (length (lb ++ (0 ∷ []))) dest))
              n))
