-- ===== src/Message/Reverse/Correct/Push.antt =====
-- The first loop of `domain_rev` in src/storage/message.c on encoded labels.
use mathlib.Core.List.{reverse}
use baka_dns.Base.{
  ℕ, zero, suc, ◌+◌, ◌≤◌, ◌<◌, ◌≡◌, refl, sym, ap, ap₂, ◌∙◌, some, List, [], ◌∷◌, ◌++◌, ◌>>=◌,
  write_bytes, write_byte, length, drop, length-append, append_assoc, append-nil, drop-drop,
  length-drop, get_elem?-drop, drop-next, drop-skip, read_bytes-drop, write_bytes-append, ==_ne,
  arith, >>=-eq-some, write_byte-write_bytes, write_bytes-append_list, All,
}
use baka_dns.Message.Labels.{Label, label_bytes, encode_labels, IsLabel}
use baka_dns.Message.Reverse.{push_labels}

-- What a name leaves on the stack: each label, and its length behind it.
unfoldable pub stack_bytes : List Label → List ℕ
stack_bytes [] = []
stack_bytes (l ∷ ls) = l ++ (length l ∷ stack_bytes ls)

pub stack_bytes-append :
    (ls ms : List Label) → stack_bytes (ls ++ ms) ≡ stack_bytes ls ++ stack_bytes ms
unfolding stack_bytes
stack_bytes-append [] ms = refl
stack_bytes-append (l ∷ ls) ms =
    ap (λ k. l ++ (length l ∷ k)) (stack_bytes-append ls ms)
    ∙ sym (append_assoc l (length l ∷ stack_bytes ls) (stack_bytes ms))

-- The bytes that one label leaves on the stack.
pub chunk : Label → List ℕ
chunk l = l ++ (length l ∷ [])

pub length-chunk : (l : Label) → length (chunk l) ≡ length l + 1
unfolding chunk
length-chunk l = length-append l (length l ∷ [])

pub push_chunk :
    (l : Label) (done free : List ℕ) (sptr : ℕ)
    → length l + 1 ≤ length free
    → sptr ≡ length done
    → (b : List ℕ) × (write_bytes (done ++ free) sptr l ≡ some b)
      × (write_byte b (sptr + length l) (length l)
          ≡ some ((done ++ chunk l) ++ drop (length l + 1) free))
unfolding chunk
push_chunk l done free sptr room e =
    >>=-eq-some (write_bytes (done ++ free) sptr l) (λ b. write_byte b (sptr + length l) (length l))
      (simp (write_byte-write_bytes) (
        sym (write_bytes-append_list (done ++ free) sptr l (length l ∷ []))
        ∙ write_bytes-append done (chunk l) free sptr e (omega (arith, length-chunk l))
        ∙ rw (length-chunk l)))

pub stack_bytes_one : (l : Label) → stack_bytes (l ∷ []) ≡ chunk l
unfolding stack_bytes chunk
stack_bytes_one l = refl

pub chunk-append : (l : Label) (junk : List ℕ) → chunk l ++ junk ≡ l ++ (length l ∷ junk)
unfolding chunk
chunk-append l junk = append_assoc l (length l ∷ []) junk

pub no_stack : length (stack_bytes (reverse [])) ≡ 0
unfolding stack_bytes
no_stack = refl

pub push_labels-stack_bytes :
    (ls : List Label) (fuel : ℕ) (src rest : List ℕ) (s : ℕ) (done free : List ℕ) (sptr : ℕ)
    → All IsLabel ls
    → length ls < fuel
    → length (stack_bytes ls) ≤ length free
    → drop s src ≡ encode_labels ls ++ rest
    → sptr ≡ length done
    → push_labels fuel src s (done ++ free) sptr
      ≡ some (
        (done ++ stack_bytes ls) ++ drop (length (stack_bytes ls)) free,
        sptr + length (stack_bytes ls),
      )
unfolding push_labels stack_bytes encode_labels chunk
push_labels-stack_bytes ls zero src rest s done free sptr h lt room e es = absurd (omega arith)
push_labels-stack_bytes [] (suc fuel) src rest s done free sptr h lt room e es =
    rw (get_elem?-drop src s 0 rest e, ◌>>=◌) (rw (append-nil done) (ground arith))
push_labels-stack_bytes (l ∷ ls) (suc fuel) src rest s done free sptr h lt room e es =
    let n = length l in
    let e0 : drop s src ≡ n ∷ (l ++ (encode_labels ls ++ rest)) =
      e
      ∙ ap (◌∷◌ n) (
          ap (λ (k : List ℕ). k ++ rest) (append_assoc l (label_bytes ls) (0 ∷ []))
          ∙ append_assoc l (encode_labels ls) rest) in
    let e1 = drop-next src s n _ e0 in
    let here : s + n + 1 ≡ s + 1 + n = omega arith in
    let e2 : drop (s + n + 1) src ≡ encode_labels ls ++ rest =
      ap (λ k. drop k src) here ∙ drop-skip src (s + 1) l _ e1 in
    let size = length-append l (n ∷ stack_bytes ls) in
    let (b1, w1, w2) = push_chunk l done free sptr (omega (arith, size)) es in
    let ih =
      push_labels-stack_bytes ls fuel src rest (s + n + 1) (done ++ chunk l) (drop (n + 1) free)
        (sptr + n + 1) h.1 (omega arith) (omega (arith, length-drop (n + 1) free)) e2
        (omega (arith, length-append done (chunk l), length-chunk l)) in
    let k = length (stack_bytes ls) in
    let total : n + 1 + k ≡ length (l ++ (n ∷ stack_bytes ls)) = omega (arith, size) in
    let stack : (done ++ chunk l) ++ stack_bytes ls ≡ done ++ (l ++ (n ∷ stack_bytes ls)) =
      simp append_assoc in
    let left : drop k (drop (n + 1) free) ≡ drop (length (l ++ (n ∷ stack_bytes ls))) free =
      drop-drop (n + 1) k free ∙ ap (λ m. drop m free) total in
    let count : sptr + n + 1 + k ≡ sptr + length (l ++ (n ∷ stack_bytes ls)) =
      omega (arith, size) in
    rw (get_elem?-drop src s n _ e0, ◌>>=◌)
      (rw (==_ne n 0 (omega arith)) (
        rw (read_bytes-drop src (s + 1) l _ e1, ◌>>=◌)
          (rw (w1, ◌>>=◌)
            (rw (w2, ◌>>=◌)
              (ih ∙ ap₂ (λ (a : List ℕ) (m : ℕ). some (a, m)) (ap₂ ◌++◌ stack left) count)))))

-- The writes of one label into the destination: its bytes behind the place of its length, then the
-- length.
