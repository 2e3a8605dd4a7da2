-- ===== src/Database/Load/Addresses.antt =====
-- The addresses that `init_database` of src/storage/database.c keeps of a name, and the records that
-- the tree of src/storage/trees.c makes of them.
use baka_dns.Base.{
  ℕ, zero, suc, ◌≡◌, refl, Bool, true, false, some, List, [], ◌∷◌, ◌++◌, map, map-append, All,
  All-append, arith, length, length-map, leb, if◌then◌else◌, ◌>>=◌, Bool-cases, inl, inr, ap, sym,
}
use baka_dns.Message.{IntRet, ret, minus_one}
use baka_dns.Message.Labels.{Label}
use baka_dns.Trees.{memcmp_eq, is_duplicate}
use baka_dns.Trees.Find.{label_eq}
use baka_dns.Trees.Contents.{put_list}
use baka_dns.Database.Load.Line.{line_record}

abbrev pub has_address : List ℕ → List (List ℕ) → Bool
has_address address [] = false
has_address address (old ∷ olds) = if label_eq address old then true else has_address address olds

-- Four different addresses at most.
abbrev pub add_address : List ℕ → List (List ℕ) → List (List ℕ)
add_address address olds =
    if leb 4 (length olds)
    then olds
    else if has_address address olds
    then olds
    else olds ++ (address ∷ [])

memcmp_eq-label_eq :
    (n : ℕ) (a b : List ℕ) → length a ≡ n → length b ≡ n → memcmp_eq n a b ≡ some (label_eq a b)
unfolding memcmp_eq
memcmp_eq-label_eq zero [] [] h k = refl
memcmp_eq-label_eq zero [] (y ∷ b) h k = absurd (omega arith)
memcmp_eq-label_eq zero (x ∷ a) b h k = absurd (omega arith)
memcmp_eq-label_eq (suc n) [] b h k = absurd (omega arith)
memcmp_eq-label_eq (suc n) (x ∷ a) [] h k = absurd (omega arith)
memcmp_eq-label_eq (suc n) (x ∷ a) (y ∷ b) h k =
    ground (arith, memcmp_eq-label_eq n a b (omega arith) (omega arith))

module _ (ls : List Label) (address : List ℕ) (four : length address ≡ 4) where
  is_duplicate-has_address :
      (olds : List (List ℕ))
      → All (λ a. length a ≡ 4) olds
      → is_duplicate (line_record ls address) (map (line_record ls) olds)
        ≡ some (has_address address olds)
  unfolding is_duplicate
  is_duplicate-has_address [] h = refl
  is_duplicate-has_address (old ∷ olds) h =
      rw (memcmp_eq-label_eq 4 address old four h.0, ◌>>=◌)
        (rw (is_duplicate-has_address olds h.1) (ground arith))

  pub put_list-add_address :
      (olds : List (List ℕ))
      → All (λ a. length a ≡ 4) olds
      → (result : IntRet) × (put_list (line_record ls address) (map (line_record ls) olds)
          ≡ some (result, map (line_record ls) (add_address address olds)))
  unfolding put_list
  put_list-add_address olds h =
      let n = length-map olds (line_record ls) in
      let d = is_duplicate-has_address olds h in
      elim (Bool-cases (leb 4 (length olds))) [
        | inl full ↦ (minus_one, rw (n, full) refl)
        | inr room ↦ elim (Bool-cases (has_address address olds)) [
          | inl old ↦ (minus_one, rw (n, room, d, old, ◌>>=◌) refl)
          | inr new ↦ (
            ret 1,
            rw (n, room, d, new, ◌>>=◌)
                (ap (λ xs. some (ret 1, xs))
                  (sym (map-append (line_record ls) olds (address ∷ [])))),
          )
        ]
      ]

  pub add_address-All :
      (olds : List (List ℕ))
      → All (λ a. length a ≡ 4) olds
      → All (λ a. length a ≡ 4) (add_address address olds)
  add_address-All olds h = elim (Bool-cases (leb 4 (length olds))) [
    | inl full ↦ rw full h
    | inr room ↦ elim (Bool-cases (has_address address olds)) [
      | inl old ↦ rw (room, old) h
      | inr new ↦ rw (room, new) (All-append (λ a. length a ≡ 4) olds (address ∷ []) h (four, tt))
    ]
  ]
