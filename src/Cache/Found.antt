-- ===== src/Cache/Found.antt =====
-- What `cache_find_rr` of src/storage/cache.c finds of the records that the cache contains.
use baka_dns.Base.{
  ℕ, zero, suc, ◌≤◌, ◌<◌, ◌≡◌, refl, sym, ap, ◌∙◌, Bool, true, false, none, some, List, [], ◌∷◌,
  inl, inr, arith, length, Bool-cases, ◌==◌, ==_iff, ◌&&◌, if◌then◌else◌, ◌>>=◌,
}
use baka_dns.Message.{ResourceRecord}
use baka_dns.Message.Name.{strncmp_eq}
use baka_dns.Message.Record.{rr_cmp}
use baka_dns.Message.Record.Compare.{Decides, names, rr_cmp-Decides}
use baka_dns.Message.Wire.Write.{domain_len-IsName}
use baka_dns.Trees.Find.{label_eq, label_eq→eq, label_eq_refl}
use baka_dns.Trees.Search.{IsStored, rr_copy_self}
use baka_dns.Message.Wire.{IsName}
use baka_dns.Cache.{Cache, cache_find_rr, is_asked}
use baka_dns.Cache.Segment.{Entry}
use baka_dns.Cache.Walk.{IsCache, find_list, cache_find_rr-find_list}
use baka_dns.Cache.Total.{Any, Contains, AllHold}

strncmp_eq_sym : (n : ℕ) (a b : List ℕ) → strncmp_eq n a b ≡ strncmp_eq n b a
unfolding strncmp_eq
strncmp_eq_sym zero a b = refl
strncmp_eq_sym (suc n) [] [] = refl
strncmp_eq_sym (suc n) [] (y ∷ b) = refl
strncmp_eq_sym (suc n) (x ∷ a) [] = refl
strncmp_eq_sym (suc n) (x ∷ a) (y ∷ b) = ground (arith, strncmp_eq_sym n a b)

-- The test of `cache_find_rr` holds for the records with the name, type and class.
is_asked-Decides :
    (rr x : ResourceRecord)
    → IsStored rr
    → IsStored x
    → Decides
        ((rr.name ≡ x.name) × (rr.type ≡ x.type) × (rr.class ≡ x.class))
        (is_asked rr.name rr.type rr.class x)
unfolding is_asked
is_asked-Decides rr x h k =
    let (b, same, (to, back)) =
      names x.name rr.name k.0.labels h.0.labels k.0.terminated h.0.terminated k.0.plain
        h.0.plain in
    let at : strncmp_eq (length x.name) rr.name x.name ≡ some b =
      strncmp_eq_sym (length x.name) rr.name x.name ∙ same in
    elim (Bool-cases (rr.type == x.type)) [
      | inr f ↦ (false, rw f refl, (λ e. absurd (ground arith), λ e. absurd (ground arith)))
      | inl t ↦ elim (Bool-cases (rr.class == x.class)) [
        | inr g ↦ (false, rw (t, g) refl, (λ e. absurd (ground arith), λ e. absurd (ground arith)))
        | inl u ↦ (
          b,
          rw (t, u, domain_len-IsName x.name k.0, ◌>>=◌) at,
          (
            λ e. (sym (to e), (==_iff rr.type x.type).0 t, (==_iff rr.class x.class).0 u),
            λ e. back (sym e.0),
          ),
        )
      ]
    ]

-- Records that are equal under `rr_cmp` pass the test.
different :
    (x rr : ResourceRecord) (b : Bool)
    → IsStored x
    → IsStored rr
    → rr_cmp x rr ≡ some true
    → ((rr.name ≡ x.name) × (rr.type ≡ x.type) × (rr.class ≡ x.class) → b ≡ true)
    → b ≡ false
    → ⊥
different x rr b h k same back f =
    let (m, cmp, (to, from)) = rr_cmp-Decides x rr h.0 k.0 h.1 k.1 in
    let equal : m ≡ true = cc (sym cmp ∙ same) in
    let (fields, data_equal) = to equal in
    let passes : b ≡ true = back (sym fields.0, sym fields.2, sym fields.3) in ground arith

-- A lookup for the name, type and class of a record gives it, up to `rr_cmp`, if the cache contains it.
pub find_list-Contains :
    (es : List Entry) (rr : ResourceRecord)
    → AllHold IsStored es
    → IsStored rr
    → (found : List ResourceRecord) × (find_list es rr.name rr.type rr.class ≡ some found)
      × (length found ≤ length es)
      × (Contains es rr → Any (λ x. rr_cmp x rr ≡ some true) found)
unfolding find_list
find_list-Contains [] rr h k = ([], refl, omega arith, λ there. absurd there)
find_list-Contains (e ∷ es) rr h k =
    let (rest, all, few, keeps) = find_list-Contains es rr h.1 k in
    let (b, asked, (to, back)) = is_asked-Decides rr e.rr k h.0 in
    elim (Bool-cases b) [
      | inl t ↦ (
        e.rr ∷ rest,
        rw (asked ∙ ap some t, ◌>>=◌) (rw (all, ◌>>=◌) (rw (rr_copy_self e.rr h.0, ◌>>=◌) refl)),
        omega (arith, few),
        λ there. elim there [ inl same ↦ inl same | inr more ↦ inr (keeps more) ],
      )
      | inr f ↦ (
        rest,
        rw (asked ∙ ap some f, ◌>>=◌) (rw (all, ◌>>=◌) refl),
        omega (arith, few),
        λ there. elim there [
          | inl same ↦ absurd (different e.rr rr b h.0 k same back f)
          | inr more ↦ keeps more
        ],
      )
    ]

-- The cached records with the name, type and class, in the order of the entries.
unfoldable pub matching : List Entry → List ℕ → ℕ → ℕ → List ResourceRecord
matching [] domain type class = []
matching (e ∷ es) domain type class =
    let rest = matching es domain type class in
    if label_eq e.rr.name domain && e.rr.type == type && e.rr.class == class
    then e.rr ∷ rest
    else rest

tests :
    (n m : List ℕ) (a b c d : ℕ)
    → (label_eq n m && a == b && c == d) ≡ true
    → (label_eq n m ≡ true) × ((a == b) ≡ true) × ((c == d) ≡ true)
tests n m a b c d e = elim (Bool-cases (label_eq n m)) [
  | inr f ↦ absurd (ground (arith, rw f at e))
  | inl t ↦ elim (Bool-cases (a == b)) [
    | inr f ↦ absurd (ground (arith, rw (t, f) at e))
    | inl u ↦ (t, u, rw (t, u) at e)
  ]
]

find_list-matching :
    (es : List Entry) (rr : ResourceRecord)
    → AllHold IsStored es
    → IsStored rr
    → find_list es rr.name rr.type rr.class ≡ some (matching es rr.name rr.type rr.class)
unfolding find_list matching
find_list-matching [] rr h k = refl
find_list-matching (e ∷ es) rr h k =
    let all = find_list-matching es rr h.1 k in
    let (b, asked, (to, back)) = is_asked-Decides rr e.rr k h.0 in
    elim (Bool-cases b) [
      | inl t ↦
          let (n, ty, cl) = to t in
          let test : (label_eq e.rr.name rr.name && e.rr.type == rr.type && e.rr.class == rr.class)
              ≡ true =
            rw (n, ty, cl) (ground (arith, label_eq_refl e.rr.name)) in
          rw (asked ∙ ap some t, test, ◌>>=◌)
            (rw (all, ◌>>=◌) (rw (rr_copy_self e.rr h.0, ◌>>=◌) refl))
      | inr f ↦
          elim (Bool-cases
            (label_eq e.rr.name rr.name && e.rr.type == rr.type && e.rr.class == rr.class)) [
              | inr g ↦ rw (asked ∙ ap some f, g, ◌>>=◌) (rw (all, ◌>>=◌) refl)
              | inl g ↦
                  let (p1, p2, p3) =
                    tests e.rr.name rr.name e.rr.type rr.type e.rr.class rr.class g in
                  let yes : b ≡ true = back (
                    sym (label_eq→eq e.rr.name rr.name p1),
                    sym ((==_iff e.rr.type rr.type).0 p2),
                    sym ((==_iff e.rr.class rr.class).0 p3),
                  ) in
                  absurd (ground arith)
            ]
    ]

-- `cache_find_rr` for a valid name, on a cache that holds some entries with valid records, with a round
-- of fuel for each entry and one more, gives exactly those of their records that have the name, the
-- type and the class, whole and in the order of the entries.
pub cache_find_rr-matching :
    (fuel : ℕ) (c : Cache) (es : List Entry) (domain : List ℕ) (type class : ℕ)
    → IsCache c es
    → AllHold IsStored es
    → IsName domain
    → length es < fuel
    → cache_find_rr fuel c domain type class ≡ some (matching es domain type class)
cache_find_rr-matching fuel c es domain type class v h name lt =
    let asked : ResourceRecord = record {
      name = domain;
      type = type;
      class = class;
      ttl = 0;
      rdlength = 0;
      rdata = none;
    } in
    cache_find_rr-find_list fuel c es domain type class v lt
    ∙ find_list-matching es asked h (name, refl)
