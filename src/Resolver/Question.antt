-- ===== src/Resolver/Question.antt =====
-- `print_question` of src/socket/resolv.c on well-formed names.
use baka_dns.Base.{
  ℕ, zero, suc, ◌+◌, ◌≤◌, ◌<◌, ◌≡◌, refl, sym, ap, ap₂, ◌∙◌, Option, some, List, [], ◌∷◌, ◌++◌,
  append_assoc, append-nil, All, arith, length, length-append, drop, drop-next, drop-skip,
  get_elem?-drop, write_byte, write_byte-append, write_byte-write_bytes, write_bytes-append,
  length-drop, drop-drop, drop-zeroed, ◌-◌, ◌>>=◌, lt→leb, ==_ne, zeroed, length-zeroed,
}
use baka_dns.Message.{MessageQuestion}
use baka_dns.Message.Labels.{Label, label_bytes, encode_labels}
use baka_dns.Message.Wire.Write.{domain_len-IsName}
use baka_dns.Trees.Find.{IsSubdomain}
use baka_dns.Database.Select.{IsDomain, encode_labels-IsName, length-label_bytes}
use baka_dns.Resolver.{copy_label, print_loop, print_question}

-- The labels with a dot behind each.
unfoldable pub question_text : List Label → List ℕ
question_text [] = []
question_text (l ∷ ls) = l ++ (46 ∷ question_text ls)

length-question_text : (ls : List Label) → length (question_text ls) ≡ length (label_bytes ls)
unfolding question_text label_bytes
length-question_text [] = refl
length-question_text (l ∷ ls) = omega (
  arith,
  length-append l (46 ∷ question_text ls),
  length-append l (label_bytes ls),
  length-question_text ls,
)

copy_label-append :
    (l rest qname : List ℕ) (i : ℕ) (done free : List ℕ) (qi : ℕ)
    → drop i qname ≡ l ++ rest
    → qi ≡ length done
    → length l ≤ length free
    → copy_label (length l) qname i (done ++ free) qi ≡ some ((done ++ l) ++ drop (length l) free)
unfolding copy_label
copy_label-append [] rest qname i done free qi here at room =
    ap (λ b. some (b ++ free)) (sym (append-nil done))
copy_label-append (c ∷ l) rest qname i done [] qi here at room = absurd (omega arith)
copy_label-append (c ∷ l) rest qname i done (x ∷ free) qi here at room =
    rw (get_elem?-drop qname i c (l ++ rest) here, ◌>>=◌)
      (rw (at, write_byte-append done x c free, ◌>>=◌)
        (copy_label-append l rest qname (i + 1) (done ++ (c ∷ [])) free (length done + 1)
            (drop-next qname i c (l ++ rest) here) (omega (arith, length-append done (c ∷ [])))
            (omega arith)
          ∙ ap (λ b. some (b ++ drop (length l) free)) (append_assoc done (c ∷ []) l)))

print_loop-question_text :
    (ls : List Label) (left : ℕ) (qname : List ℕ) (dlen i : ℕ) (done free : List ℕ) (qi : ℕ)
    → All IsSubdomain ls
    → drop i qname ≡ encode_labels ls
    → i < dlen
    → length ls < left
    → dlen ≡ i + length (encode_labels ls)
    → qi ≡ length done
    → length (question_text ls) ≤ length free
    → print_loop left qname dlen i (done ++ free) qi
      ≡ some ((done ++ question_text ls) ++ drop (length (question_text ls)) free)
unfolding print_loop question_text encode_labels label_bytes
print_loop-question_text ls zero qname dlen i done free qi h here lt more n at room =
    absurd (omega arith)
print_loop-question_text [] (suc left) qname dlen i done free qi h here lt more n at room =
    rw (lt→leb dlen i lt, print_loop)
      (rw (get_elem?-drop qname i 0 [] here, ◌>>=◌)
        (ap (λ b. some (b ++ free)) (sym (append-nil done))))
print_loop-question_text (l ∷ ls) (suc left) qname dlen i done free qi h here lt more n at room =
    let t = question_text ls in
    let n1 = length-append l (encode_labels ls) in
    let n2 = length-append l (46 ∷ t) in
    let n3 = append_assoc l (label_bytes ls) (0 ∷ []) in
    let n4 = ap length n3 in
    let e0 : drop i qname ≡ length l ∷ (l ++ encode_labels ls) = here ∙ ap (◌∷◌ (length l)) n3 in
    let e1 = drop-next qname i (length l) (l ++ encode_labels ls) e0 in
    let e2 : drop (i + length l + 1) qname ≡ encode_labels ls =
      ap (λ k. drop k qname) (omega arith) ∙ drop-skip qname (i + 1) l (encode_labels ls) e1 in
    let free1 = drop (length l) free in
    let done1 = (done ++ l) ++ (46 ∷ []) in
    let dot : write_byte ((done ++ l) ++ free1) (qi + length l) 46 ≡ some (done1 ++ drop 1 free1) =
      write_byte-write_bytes ((done ++ l) ++ free1) (qi + length l) 46
      ∙ write_bytes-append (done ++ l) (46 ∷ []) free1 (qi + length l)
          (omega (arith, length-append done l)) (omega (arith, n2, length-drop (length l) free)) in
    let rest =
      print_loop-question_text ls left qname dlen (i + length l + 1) done1 (drop 1 free1)
        (qi + length l + 1) h.1 e2 (omega (arith, n1, n4, length-append (label_bytes ls) (0 ∷ [])))
        (omega arith) (omega (arith, n1, n4))
        (omega (arith, length-append (done ++ l) (46 ∷ []), length-append done l))
        (omega (arith, n2, length-drop (length l) free, length-drop 1 free1)) in
    rw (lt→leb dlen i lt, print_loop)
      (rw (get_elem?-drop qname i (length l) _ e0, ◌>>=◌)
        (rw (==_ne (length l) 0 (λ e. omega (arith, h.0.inhabited))) (
          rw
            (
              copy_label-append l (encode_labels ls) qname (i + 1) done free qi e1 at
                  (omega (arith, n2)),
              ◌>>=◌,
            )
            (rw (dot, ◌>>=◌)
              (rest
                ∙ ap₂ (λ a b. some (a ++ b)) (simp append_assoc)
                    (drop-drop 1 (length t) free1
                      ∙ drop-drop (length l) (1 + length t) free
                      ∙ ap (λ k. drop k free) (omega (arith, n2))))))))

-- `print_question` on a question for a name that the database can hold: the text that is logged is
-- the labels with a dot behind each, and the buffer behind it is zero.
pub print_question-question_text :
    (q : MessageQuestion) (ls : List Label)
    → IsDomain ls
    → q.qname ≡ encode_labels ls
    → print_question q ≡ some (some (question_text ls ++ zeroed (512 - length (question_text ls))))
unfolding print_question encode_labels
print_question-question_text q ls d e =
    let name = encode_labels ls in
    let n = length-append (label_bytes ls) (0 ∷ []) in
    let k = length-question_text ls in
    rw (e, domain_len-IsName name (encode_labels-IsName ls d), ◌>>=◌)
      (ap (λ (m : Option (List ℕ)). m >>= λ text. some (some text))
        (ap (λ qname. print_loop (length name) qname (length name) 0 (zeroed 512) 0) e
          ∙ print_loop-question_text ls (length name) name (length name) 0 [] (zeroed 512) 0
              d.subdomains refl (omega (arith, n)) (omega (arith, n, length-label_bytes ls))
              (omega arith) refl (omega (arith, k, length-zeroed 512, d.short))
          ∙ ap (λ b. some (question_text ls ++ b))
              (drop-zeroed (length (question_text ls)) 512 (omega (arith, k, d.short)))))
