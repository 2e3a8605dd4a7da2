-- ===== src/Resolver/Faults.antt =====
-- Requests with two questions that the cache answers, in src/socket/resolv.c: what the records in
-- `ans_buffer` are and what the writer of src/storage/message.c does with them.
use baka_dns.Base.{
  ℕ, zero, suc, ◌+◌, ◌≤◌, ◌<◌, ◌≡◌, refl, ap, ◌∙◌, subst, Option, none, some, List, [], ◌∷◌, ◌++◌,
  ◌⊎◌, inl, inr, All, arith, length, drop, map, ◌>>=◌, >>=_assoc, replicate,
}
use baka_dns.Message.{ResourceRecord, IntRet}
use baka_dns.Message.Wire.{WireMessage, array_of, message_of}
use baka_dns.Message.Name.{domain_len, strnlen}
use baka_dns.Message.Print.{
  elements_to_u8, section_to_u8, then_write, advance, add_size, message_to_u8, msg_rr_to_u8,
  msg_question_to_u8, msg_header_to_u8,
}
use baka_dns.Client.Edns.{array_of-inhabited}
use baka_dns.Resolver.{zero_record, fill, read_elements}
use baka_dns.Resolver.Respond.{local_response}

pub >>=-none :
    {A : Type 0} {B : Type 0} (m : Option A) (f : A → Option B)
    → ((a : A) → f a ≡ none)
    → (m >>= f) ≡ none
>>=-none none f h = refl
>>=-none (some a) f h = h a

pub >>=-same :
    {A : Type 0} {B : Type 0} (m : Option A) (f g : A → Option B)
    → ((a : A) → f a ≡ g a)
    → (m >>= f) ≡ (m >>= g)
>>=-same none f g h = refl
>>=-same (some a) f g h = h a

pub >>=-at_some :
    {A : Type 0} {B : Type 0} (m : Option A) (a : A) (f : A → Option B)
    → m ≡ some a
    → (m >>= f) ≡ f a
>>=-at_some m a f e = rw (e, ◌>>=◌) refl

pub >>=-at_none :
    {A : Type 0} {B : Type 0} (m : Option A) (f : A → Option B) → m ≡ none → (m >>= f) ≡ none
>>=-at_none m f e = rw (e, ◌>>=◌) refl

-- Some of the first `n` records have no name, or there are fewer records.
abbrev pub Ragged : ℕ → List ResourceRecord → Type 0
Ragged zero buf = ⊥
Ragged (suc n) [] = Unit
Ragged (suc n) (rr ∷ buf) = (rr ≡ zero_record) ⊎ Ragged n buf

-- The first `n` elements cannot be read, or they are a list.
pub read_elements-split :
    {A : Type 0} (n : ℕ) (xs : List A)
    → (read_elements n (map some xs) ≡ none)
      ⊎ ((first : List A) × (tail : List A) × (xs ≡ first ++ tail) × (n ≡ length first))
unfolding read_elements
read_elements-split zero xs = inr ([], xs, refl, refl)
read_elements-split (suc n) [] = inl refl
read_elements-split (suc n) (x ∷ xs) = elim (read_elements-split n xs) [
  | inl e ↦ inl (rw (e, ◌>>=◌) refl)
  | inr (first, tail, parts, n_is) ↦ inr (x ∷ first, tail, ap (◌∷◌ x) parts, omega arith)
]

pub Ragged-take :
    (rrs tail : List ResourceRecord) → Ragged (length rrs) (rrs ++ tail) → Ragged (length rrs) rrs
Ragged-take [] tail h = h
Ragged-take (rr ∷ rrs) tail (inl e) = inl e
Ragged-take (rr ∷ rrs) tail (inr h) = inr (Ragged-take rrs tail h)

-- Records without a name at the end of `ans_buffer`.
Ragged-zeros :
    (n d : ℕ) (zs : List ResourceRecord)
    → All (λ z. z ≡ zero_record) zs
    → 0 < n
    → Ragged n (drop d zs)
Ragged-zeros zero d zs h lt = absurd (omega arith)
Ragged-zeros (suc n) zero [] h lt = tt
Ragged-zeros (suc n) zero (z ∷ zs) h lt = inl h.0
Ragged-zeros (suc n) (suc d) [] h lt = tt
Ragged-zeros (suc n) (suc d) (z ∷ zs) h lt = Ragged-zeros (suc n) d zs h.1 lt

-- They are still among the first records when fewer records are overwritten than are counted.
Ragged-drop :
    (n d : ℕ) (xs zs : List ResourceRecord)
    → All (λ z. z ≡ zero_record) zs
    → length xs < n + d
    → 0 < n
    → Ragged n (drop d (xs ++ zs))
Ragged-drop n d [] zs h lt some_left = Ragged-zeros n d zs h some_left
Ragged-drop zero zero (x ∷ xs) zs h lt some_left = absurd (omega arith)
Ragged-drop (suc n) zero (x ∷ xs) zs h lt some_left =
    inr (Ragged-drop n zero xs zs h (omega arith) (omega arith))
Ragged-drop n (suc d) (x ∷ xs) zs h lt some_left = Ragged-drop n d xs zs h (omega arith) some_left

pub Ragged-append :
    (m n : ℕ) (xs buf : List ResourceRecord)
    → Ragged n buf
    → m ≡ length xs + n
    → Ragged m (xs ++ buf)
Ragged-append m n [] buf h e = subst (λ k. Ragged k buf) (omega arith) h
Ragged-append zero n (x ∷ xs) buf h e = absurd (omega arith)
Ragged-append (suc m) n (x ∷ xs) buf h e = inr (Ragged-append m n xs buf h (omega arith))

msg_rr_to_u8-zero_record : (b : List ℕ) (p : ℕ) → msg_rr_to_u8 zero_record b p ≡ none
unfolding msg_rr_to_u8 domain_len strnlen
msg_rr_to_u8-zero_record b p = refl

elements_to_u8-Ragged :
    (n : ℕ) (rrs : List ResourceRecord) (b : List ℕ) (p size : ℕ)
    → Ragged n rrs
    → elements_to_u8 msg_rr_to_u8 n (map some rrs) b p size ≡ none
unfolding elements_to_u8
elements_to_u8-Ragged zero rrs b p size h = absurd h
elements_to_u8-Ragged (suc n) [] b p size h = refl
elements_to_u8-Ragged (suc n) (rr ∷ rrs) b p size (inl e) =
    rw (e, msg_rr_to_u8-zero_record b p, ◌>>=◌) refl
elements_to_u8-Ragged (suc n) (rr ∷ rrs) b p size (inr h) =
    >>=-none (msg_rr_to_u8 rr b p) _ λ (b', tmp).
      >>=-none (advance p tmp) _ λ p'. elements_to_u8-Ragged n rrs b' p' (add_size size tmp) h

-- What follows the elements does not matter when it is a fault.
elements_to_u8-then_write :
    {A : Type 0} (to_u8 : A → List ℕ → ℕ → Option (List ℕ × IntRet)) (xs : List A) (b : List ℕ)
    (p size : ℕ) (k : List ℕ → ℕ → ℕ → Option (List ℕ × IntRet))
    → ((b' : List ℕ) (p' size' : ℕ) → k b' p' size' ≡ none)
    → (elements_to_u8 to_u8 (length xs) (map some xs) b p size >>= λ w. then_write w k) ≡ none
unfolding elements_to_u8
elements_to_u8-then_write to_u8 [] b p size k h = h b p size
elements_to_u8-then_write to_u8 (x ∷ xs) b p size k h =
    >>=_assoc (to_u8 x b p) _ _
    ∙ >>=-none (to_u8 x b p) _ λ (b', tmp).
      >>=_assoc (advance p tmp) _ _
      ∙ >>=-none (advance p tmp) _
          λ p'. elements_to_u8-then_write to_u8 xs b' p' (add_size size tmp) k h

section_to_u8-then_write :
    {A : Type 0} (to_u8 : A → List ℕ → ℕ → Option (List ℕ × IntRet)) (xs : List A) (b : List ℕ)
    (p : ℕ) (k : List ℕ → ℕ → ℕ → Option (List ℕ × IntRet))
    → ((b' : List ℕ) (p' size' : ℕ) → k b' p' size' ≡ none)
    → (section_to_u8 to_u8 (length xs) (array_of xs) b p >>= λ w. then_write w k) ≡ none
unfolding section_to_u8
section_to_u8-then_write to_u8 [] b p k h = h b p 0
section_to_u8-then_write to_u8 (x ∷ xs) b p k h =
    ap (λ a. section_to_u8 to_u8 (length (x ∷ xs)) a b p >>= λ w. then_write w k)
      (array_of-inhabited (x ∷ xs) (omega arith))
    ∙ elements_to_u8-then_write to_u8 (x ∷ xs) b p 0 k h

section_to_u8-Ragged :
    (rrs : List ResourceRecord) (b : List ℕ) (p : ℕ)
    → Ragged (length rrs) rrs
    → section_to_u8 msg_rr_to_u8 (length rrs) (array_of rrs) b p ≡ none
unfolding section_to_u8
section_to_u8-Ragged [] b p h = absurd h
section_to_u8-Ragged (rr ∷ rrs) b p h =
    ap (λ a. section_to_u8 msg_rr_to_u8 (length (rr ∷ rrs)) a b p)
      (array_of-inhabited (rr ∷ rrs) (omega arith))
    ∙ elements_to_u8-Ragged (length (rr ∷ rrs)) (rr ∷ rrs) b p 0 h

-- The writer does not return a response with a record without a name.
pub message_to_u8-Ragged :
    (w : WireMessage) (rrs : List ResourceRecord) (dest : List ℕ)
    → Ragged (length rrs) rrs
    → message_to_u8 (message_of (local_response w rrs)) dest ≡ none
unfolding message_to_u8
message_to_u8-Ragged w rrs dest h = >>=-none (msg_header_to_u8 _ dest 0) _ λ (b0, hsize).
    section_to_u8-then_write msg_question_to_u8 w.questions b0 hsize _ λ b1 p1 qsize.
      >>=-at_none (section_to_u8 msg_rr_to_u8 (length rrs) (array_of rrs) b1 p1) _
        (section_to_u8-Ragged rrs b1 p1 h)

-- Records are stored at the start of the buffer, or there is no room.
pub fill-cases : (buf rrs : List ResourceRecord) → (fill buf rrs ≡ none) ⊎ (length rrs ≤ length buf)
unfolding fill
fill-cases buf [] = inr (omega arith)
fill-cases [] (rr ∷ rrs) = inl refl
fill-cases (old ∷ buf) (rr ∷ rrs) = elim (fill-cases buf rrs) [
  | inl e ↦ inl (rw (e, ◌>>=◌) refl)
  | inr le ↦ inr (omega arith)
]

-- `ans_buffer` behind the answers to two questions, the second in front.
pub Ragged-fill :
    (first second zs : List ResourceRecord)
    → All (λ z. z ≡ zero_record) zs
    → 0 < length first
    → 0 < length second
    → Ragged (length first + length second) (second ++ drop (length second) (first ++ zs))
Ragged-fill first second zs h f s =
    Ragged-append (length first + length second) (length first) second
      (drop (length second) (first ++ zs))
      (Ragged-drop (length first) (length second) first zs h (omega arith) f) (omega arith)

pub drop-replicate_zero : (d n : ℕ) → All (λ z. z ≡ zero_record) (drop d (replicate n zero_record))
drop-replicate_zero zero zero = tt
drop-replicate_zero zero (suc n) = (refl, drop-replicate_zero zero n)
drop-replicate_zero (suc d) zero = tt
drop-replicate_zero (suc d) (suc n) = drop-replicate_zero d n
