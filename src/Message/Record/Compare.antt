-- ===== src/Message/Record/Compare.antt =====
-- `rr_cmp` of src/storage/message.c on records with valid names.
use native.Mathlib.Decide.{ℕ_discrete}
use native.Mathlib.Numerals.{add-one}
use baka_dns.Base.{
  ℕ, zero, suc, ◌≡◌, ◌↔◌, refl, sym, ap₂, ◌∙◌, Bool, true, false, Option, none, some, List, [], ◌∷◌,
  ◌++◌, ◌==◌, if◌then◌else◌, ◌>>=◌, length, length-append, All, arith,
}
use baka_dns.Message.{ResourceRecord}
use baka_dns.Message.Name.{strncmp_eq}
use baka_dns.Message.Name.Complete.{PlainByte}
use baka_dns.Message.Wire.{IsName, HoldsData}
use baka_dns.Message.Wire.Write.{domain_len-IsName}
use baka_dns.Message.Record.{rr_cmp, block_of, and_then}

-- The bytes before the first zero byte.
pub until_zero : List ℕ → List ℕ
until_zero [] = []
until_zero (b ∷ bs) = if b == 0 then [] else b ∷ until_zero bs

-- The computation stays within its arrays, and its answer is whether `P` holds.
abbrev pub Decides : Type 0 → Option Bool → Type 0
Decides P m = (b : Bool) × (m ≡ some b) × ((b ≡ true) ↔ P)

strncmp_eq-blocks :
    (n : ℕ) (a b : List ℕ)
    → length a ≡ n
    → length b ≡ n
    → Decides (until_zero a ≡ until_zero b) (strncmp_eq n a b)
unfolding strncmp_eq until_zero
strncmp_eq-blocks zero [] [] ha hb = (true, refl, (λ _. refl, λ _. refl))
strncmp_eq-blocks zero (x ∷ a) b ha hb = absurd (omega arith)
strncmp_eq-blocks zero [] (y ∷ b) ha hb = absurd (omega arith)
strncmp_eq-blocks (suc n) [] b ha hb = absurd (omega arith)
strncmp_eq-blocks (suc n) (x ∷ a) [] ha hb = absurd (omega arith)
strncmp_eq-blocks (suc n) (x ∷ a) (y ∷ b) ha hb =
    let (r, e, (back, forth)) = strncmp_eq-blocks n a b (omega arith) (omega arith) in
    elim (ℕ_discrete x y) [
      | no f ↦ (false, ground arith, (λ t. absurd (ground arith), λ t. absurd (ground arith)))
      | yes same ↦ elim (ℕ_discrete x 0) [
        | yes z ↦ (true, ground arith, (λ _. ground arith, λ _. refl))
        | no nz ↦ (r, ground arith, (λ t. ground (arith, back t), λ t. forth (ground arith)))
      ]
    ]

strncmp_eq-names :
    (a b : List ℕ)
    → All PlainByte a
    → All PlainByte b
    → Decides
        (a ++ (0 ∷ []) ≡ b ++ (0 ∷ []))
        (strncmp_eq (suc (length a)) (a ++ (0 ∷ [])) (b ++ (0 ∷ [])))
unfolding strncmp_eq
strncmp_eq-names [] [] ha hb = (true, refl, (λ _. refl, λ _. refl))
strncmp_eq-names [] (y ∷ b) ha hb = (
  false,
  ground (arith, hb.0.0),
  (λ t. absurd (ground arith), λ t. absurd (ground (arith, hb.0.0))),
)
strncmp_eq-names (x ∷ a) [] ha hb = (
  false,
  ground (arith, ha.0.0),
  (λ t. absurd (ground arith), λ t. absurd (ground (arith, ha.0.0))),
)
strncmp_eq-names (x ∷ a) (y ∷ b) ha hb =
    let (r, e, (back, forth)) = strncmp_eq-names a b ha.1 hb.1 in
    elim (ℕ_discrete x y) [
      | no f ↦ (false, ground arith, (λ t. absurd (ground arith), λ t. absurd (ground arith)))
      | yes same ↦
          (r, ground (arith, ha.0.0), (λ t. ap₂ ◌∷◌ same (back t), λ t. forth (ground arith)))
    ]

-- Whether two conditions hold, the second one looked at only if the first does.
Decides-and_then :
    (P Q : Type 0) (c : Bool) (m : Option Bool)
    → ((c ≡ true) ↔ P)
    → (c ≡ true → Decides Q m)
    → Decides (P × Q) (and_then c m)
Decides-and_then P Q true m h second =
    let (r, e, k) = second refl in (r, e, (λ t. (h.0 refl, k.0 t), λ both. k.1 both.1))
Decides-and_then P Q false m h second =
    (false, refl, (λ t. absurd (ground arith), λ both. absurd (ground (arith, h.1 both.0))))

pub names :
    (a b la lb : List ℕ)
    → a ≡ la ++ (0 ∷ [])
    → b ≡ lb ++ (0 ∷ [])
    → All PlainByte la
    → All PlainByte lb
    → Decides (a ≡ b) (strncmp_eq (length a) a b)
names a b la lb ea eb ha hb =
    rw (ea, eb, length-append la (0 ∷ []), add-one (length la)) (strncmp_eq-names la lb ha hb)

length-block_of : (n : ℕ) (d : Option (List ℕ)) → HoldsData n d → length (block_of d) ≡ n
length-block_of n none h = sym h
length-block_of n (some bytes) h = h.0

fields :
    (P : Type 0) (s : Bool) (a b c d e f : ℕ)
    → ((s ≡ true) ↔ P)
    → (((if (if (if s then a == b else false) then c == d else false) then e == f else false)
          ≡ true)
        ↔ (P × (a ≡ b) × (c ≡ d) × (e ≡ f)))
fields P true a b c d e f h =
    (λ t. (h.0 refl, ground arith, ground arith, ground arith), λ t. ground (arith, t.1, t.2, t.3))
fields P false a b c d e f h = (λ t. absurd (ground arith), λ t. absurd (ground (arith, h.1 t.0)))

-- `rr_cmp` on records with valid names, whose data are as long as `rdlength` says, stays within the
-- names and the data. It answers 1 exactly when the records have the same name, length, type and
-- class, and their data are the same up to the first zero byte; the bytes behind it, and the time to
-- live, make no difference.
pub rr_cmp-Decides :
    (rr1 rr2 : ResourceRecord)
    → IsName rr1.name
    → IsName rr2.name
    → HoldsData rr1.rdlength rr1.rdata
    → HoldsData rr2.rdlength rr2.rdata
    → Decides
        (((rr1.name ≡ rr2.name)
            × (rr1.rdlength ≡ rr2.rdlength)
            × (rr1.type ≡ rr2.type)
            × (rr1.class ≡ rr2.class))
          × (until_zero (block_of rr1.rdata) ≡ until_zero (block_of rr2.rdata)))
        (rr_cmp rr1 rr2)
unfolding rr_cmp
rr_cmp-Decides rr1 rr2 n1 n2 d1 d2 =
    let (same, e, k) =
      names rr1.name rr2.name n1.labels n2.labels n1.terminated n2.terminated n1.plain n2.plain in
    let all =
      fields (rr1.name ≡ rr2.name) same rr1.rdlength rr2.rdlength rr1.type rr2.type rr1.class
        rr2.class k in
    rw (domain_len-IsName rr1.name n1, ◌>>=◌)
      (rw (e, ◌>>=◌)
        (Decides-and_then _ _ _ _ all (λ t.
          strncmp_eq-blocks rr1.rdlength (block_of rr1.rdata) (block_of rr2.rdata)
            (length-block_of rr1.rdlength rr1.rdata d1)
            (length-block_of rr2.rdlength rr2.rdata d2 ∙ sym (all.0 t).1))))
