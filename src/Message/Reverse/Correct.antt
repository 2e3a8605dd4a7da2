-- ===== src/Message/Reverse/Correct.antt =====
-- `domain_rev` of src/storage/message.c on encoded labels.
mod Push
use mathlib.Core.List.{reverse, reverse-cons, reverse-reverse}
use native.Mathlib.Numerals.{add-one}
use baka_dns.Base.{
  ℕ, zero, suc, ◌+◌, ◌-◌, ◌≤◌, ◌<◌, ◌≡◌, ◌≢◌, refl, sym, ap, ap₂, ◌∙◌, some, List, [], ◌∷◌, ◌++◌,
  ◌>>=◌, get_elem?, zeroed, read_bytes, write_bytes, write_byte, length, drop, length-append,
  append_assoc, append-nil, drop-drop, length-drop, get_elem?-drop, drop-next, drop-skip,
  read_bytes-drop, write_bytes-append, write_byte-append, ==_ne, lt→ltb, le→leb, drop-append_self,
  length-zeroed, arith, >>=-eq-some, write_byte-write_bytes, write_bytes-append_list,
  length-reverse, All, All-reverse,
}
use baka_dns.Message.Labels.{Label, label_bytes, encode_labels, IsLabel, label_bytes-append}
use baka_dns.Message.Reverse.{push_labels, pop_labels, domain_rev}
use baka_dns.Message.Reverse.Correct.Push.{
  stack_bytes, stack_bytes-append, chunk, length-chunk, push_chunk, stack_bytes_one, chunk-append,
  no_stack, push_labels-stack_bytes,
}

put_label :
    (l : Label) (done free : List ℕ) (d : ℕ)
    → length l + 1 ≤ length free
    → d ≡ length done
    → (b : List ℕ) × (write_bytes (done ++ free) (d + 1) l ≡ some b)
      × (write_byte b d (length l) ≡ some ((done ++ (length l ∷ l)) ++ drop (length l + 1) free))
put_label l done [] d room e = absurd (omega arith)
put_label l done (y ∷ free) d room e =
    let n = length l in
    let grown = length-append done (y ∷ []) in
    let at_end : done ++ (y ∷ free) ≡ (done ++ (y ∷ [])) ++ free = simp append_assoc in
    let back : ((done ++ (y ∷ [])) ++ l) ++ drop n free ≡ done ++ (y ∷ (l ++ drop n free)) =
      simp append_assoc in
    let after : (done ++ (n ∷ [])) ++ (l ++ drop n free)
        ≡ (done ++ (n ∷ l)) ++ drop (n + 1) (y ∷ free) =
      rw (add-one n) (simp append_assoc) in
    (
      ((done ++ (y ∷ [])) ++ l) ++ drop n free,
      rw at_end (write_bytes-append (done ++ (y ∷ [])) l free (d + 1) (omega arith) (omega arith)),
      rw (back, e) (write_byte-append done y n (l ++ drop n free) ∙ ap some after),
    )

pop_step :
    (fuel : ℕ) (stack : List ℕ) (top : ℕ) (dest : List ℕ) (d n : ℕ) (label b1 b2 : List ℕ)
    → 1 < top
    → get_elem? stack (top - 1) ≡ some n
    → n ≢ 0
    → n ≤ top - 1
    → read_bytes stack (top - 1 - n) n ≡ some label
    → write_bytes dest (d + 1) label ≡ some b1
    → write_byte b1 d n ≡ some b2
    → pop_labels (suc fuel) stack top dest d ≡ pop_labels fuel stack (top - (n + 1)) b2 (d + n + 1)
unfolding pop_labels
pop_step fuel stack top dest d n label b1 b2 h1 h2 h3 h4 h5 h6 h7 =
    rw (lt→ltb 1 top h1, pop_labels)
      (rw (h2, ◌>>=◌)
        (rw (==_ne n 0 h3)
          (rw (le→leb n (top - 1) h4) (rw (h5, ◌>>=◌) (rw (h6, ◌>>=◌) (rw (h7, ◌>>=◌)))))))

-- The stack read from its top, with the last label pushed first in `rs`.
pop_labels-stack_bytes :
    (rs : List Label) (fuel : ℕ) (junk : List ℕ) (top : ℕ) (done free : List ℕ) (d : ℕ)
    → All IsLabel rs
    → length rs < fuel
    → length (label_bytes rs) ≤ length free
    → top ≡ length (stack_bytes (reverse rs))
    → d ≡ length done
    → pop_labels fuel (stack_bytes (reverse rs) ++ junk) top (done ++ free) d
      ≡ some (
        (done ++ label_bytes rs) ++ drop (length (label_bytes rs)) free,
        d + length (label_bytes rs),
      )
unfolding pop_labels label_bytes
pop_labels-stack_bytes rs zero junk top done free d h lt room et ed = absurd (omega arith)
pop_labels-stack_bytes [] (suc fuel) junk top done free d h lt room et ed =
    rw (et, append-nil done) (rw (no_stack, pop_labels) (ground arith))
pop_labels-stack_bytes (r ∷ rs) (suc fuel) junk top done free d h lt room et ed =
    let n = length r in
    let sb = stack_bytes (reverse rs) in
    let T = length sb in
    let pushed : stack_bytes (reverse (r ∷ rs)) ≡ sb ++ chunk r =
      ap stack_bytes (reverse-cons r rs)
      ∙ stack_bytes-append (reverse rs) (r ∷ [])
      ∙ ap (◌++◌ sb) (stack_bytes_one r) in
    let stack : stack_bytes (reverse (r ∷ rs)) ++ junk ≡ sb ++ (r ++ (n ∷ junk)) =
      ap (λ (k : List ℕ). k ++ junk) pushed
      ∙ append_assoc sb (chunk r) junk
      ∙ ap (◌++◌ sb) (chunk-append r junk) in
    let height : top ≡ T + (n + 1) =
      omega (arith, et, ap length pushed, length-append sb (chunk r), length-chunk r) in
    let at_label = drop-append_self sb (r ++ (n ∷ junk)) in
    let at_length = drop-skip (sb ++ (r ++ (n ∷ junk))) T r (n ∷ junk) at_label in
    let size = length-append r (label_bytes rs) in
    let (b1, w1, w2) = put_label r done free d (omega (arith, size)) ed in
    let before : top - 1 ≡ T + n = omega arith in
    let start : T + n - n ≡ T = omega arith in
    let popped : top - (n + 1) ≡ T = omega arith in
    let ih =
      pop_labels-stack_bytes rs fuel (r ++ (n ∷ junk)) T (done ++ (n ∷ r)) (drop (n + 1) free)
        (d + n + 1) h.1 (omega arith) (omega (arith, size, length-drop (n + 1) free)) refl
        (omega (arith, length-append done (n ∷ r))) in
    let bytes = sb ++ (r ++ (n ∷ junk)) in
    let k = length (label_bytes rs) in
    let written : (done ++ (n ∷ r)) ++ label_bytes rs ≡ done ++ (n ∷ (r ++ label_bytes rs)) =
      append_assoc done (n ∷ r) (label_bytes rs) in
    let total : n + 1 + k ≡ length (n ∷ (r ++ label_bytes rs)) = omega (arith, size) in
    let left : drop k (drop (n + 1) free) ≡ drop (length (n ∷ (r ++ label_bytes rs))) free =
      drop-drop (n + 1) k free ∙ ap (λ m. drop m free) total in
    let count : d + n + 1 + k ≡ d + length (n ∷ (r ++ label_bytes rs)) = omega (arith, size) in
    rw stack (
      pop_step fuel bytes top (done ++ free) d n r b1 _ (omega arith)
        (rw before (get_elem?-drop bytes (T + n) n junk at_length)) (omega arith) (omega arith)
        (rw (before, start) (read_bytes-drop bytes T r (n ∷ junk) at_label)) w1 w2
      ∙ ap (λ t. pop_labels fuel bytes t ((done ++ (n ∷ r)) ++ drop (n + 1) free) (d + n + 1))
          popped
      ∙ ih
      ∙ ap₂ (λ (a : List ℕ) (m : ℕ). some (a, m)) (ap₂ ◌++◌ written left) count)

length-stack_bytes : (ls : List Label) → length (stack_bytes ls) ≡ length (label_bytes ls)
unfolding stack_bytes label_bytes
length-stack_bytes [] = refl
length-stack_bytes (l ∷ ls) = omega (
  arith,
  length-append l (length l ∷ stack_bytes ls),
  length-append l (label_bytes ls),
  length-stack_bytes ls,
)

length-label_bytes-reverse :
    (ls : List Label) → length (label_bytes (reverse ls)) ≡ length (label_bytes ls)
unfolding label_bytes
length-label_bytes-reverse [] = refl
length-label_bytes-reverse (l ∷ ls) =
    ap (λ k. length (label_bytes k)) (reverse-cons l ls)
    ∙ ap length (label_bytes-append (reverse ls) (l ∷ []))
    ∙ omega (
      arith,
      length-append (label_bytes (reverse ls)) (length l ∷ (l ++ [])),
      ap length (append-nil l),
      length-append l (label_bytes ls),
      length-label_bytes-reverse ls,
    )

-- `domain_rev` reverses the labels of a name: where `src` begins with the encoding of labels that
-- fit its stack and the destination, the destination begins with the encoding of the labels in the
-- opposite order, and is unchanged behind it. The fuel needed is one more than the labels.
pub domain_rev-encode_labels :
    (fuel : ℕ) (ls : List Label) (rest dest : List ℕ)
    → All IsLabel ls
    → length ls < fuel
    → length (label_bytes ls) ≤ 512
    → length (encode_labels ls) ≤ length dest
    → domain_rev fuel dest (encode_labels ls ++ rest)
      ≡ some (encode_labels (reverse ls) ++ drop (length (encode_labels ls)) dest)
unfolding domain_rev encode_labels
domain_rev-encode_labels fuel ls rest dest h lt fits room =
    let rs = reverse ls in
    let sb = stack_bytes ls in
    let k = length (label_bytes rs) in
    let size = length-stack_bytes ls in
    let same = length-label_bytes-reverse ls in
    let whole : length (encode_labels ls) ≡ length (label_bytes ls) + 1 =
      length-append (label_bytes ls) (0 ∷ []) in
    let pushed =
      push_labels-stack_bytes ls fuel (encode_labels ls ++ rest) rest 0 [] (zeroed 512) 0 h lt
        (omega (arith, length-zeroed 512)) refl refl in
    let junk = drop (length sb) (zeroed 512) in
    let back : stack_bytes (reverse rs) ≡ sb = ap stack_bytes (reverse-reverse ls) in
    let popped =
      pop_labels-stack_bytes rs fuel junk (0 + length sb) [] dest 0 (All-reverse IsLabel ls h)
        (omega (arith, length-reverse ls)) (omega arith) (omega (arith, ap length back)) refl in
    let ended =
      write_byte-write_bytes (label_bytes rs ++ drop k dest) (0 + k) 0
      ∙ write_bytes-append (label_bytes rs) (0 ∷ []) (drop k dest) (0 + k) (omega arith)
          (omega (arith, length-drop k dest)) in
    let total : k + 1 ≡ length (encode_labels ls) = omega arith in
    let left : drop 1 (drop k dest) ≡ drop (length (encode_labels ls)) dest =
      drop-drop k 1 dest ∙ ap (λ m. drop m dest) total in
    rw (pushed, ◌>>=◌)
      (rw ((rw back at popped), ◌>>=◌)
        (ended ∙ ap (λ (m : List ℕ). some (encode_labels rs ++ m)) left))
