-- ===== src/Cache/Refresh/Kept.antt =====
-- The entries that a pass of `refresh_cache` in src/storage/cache.c keeps.
use mathlib.Core.List.{map}
use baka_dns.Base.{
  ℕ, zero, suc, ◌+◌, ◌-◌, ◌%◌, ◌^◌, ◌<◌, ◌≡◌, ◌≢◌, refl, sym, ap, ◌∙◌, true, false, List, [], ◌∷◌,
  ◌==◌, if◌then◌else◌, leb, All, arith, take, ==_iff, Bool-cases, inl, inr,
}
use baka_dns.Cache.Segment.{Entry, Distinct}

-- The entries that have not expired.
unfoldable pub alive : ℕ → List Entry → List Entry
alive now [] = []
alive now (e ∷ es) = if leb e.expire_time now then alive now es else e ∷ alive now es

-- An entry with the time that it has left.
abbrev pub renewed : ℕ → Entry → Entry
renewed now e = record e { rr = record e.rr { ttl = (e.expire_time - now) % 2 ^ 32 } }

-- What a pass keeps behind `cnt` entries.
unfoldable pub keep : ℕ → ℕ → List Entry → List Entry
keep now cnt [] = []
keep now cnt (e ∷ es) = elim (leb e.expire_time now) [
  | true ↦ keep now cnt es
  | false ↦ renewed now e ∷ (elim (cnt + 1 == 256) [ true ↦ [] | false ↦ keep now (cnt + 1) es ])
]

pub keep_nil : (now cnt : ℕ) → keep now cnt [] ≡ []
unfolding keep
keep_nil now cnt = refl

pub keep_expired :
    (now cnt : ℕ) (e : Entry) (es : List Entry)
    → leb e.expire_time now ≡ true
    → keep now cnt (e ∷ es) ≡ keep now cnt es
unfolding keep
keep_expired now cnt e es t = ground arith

pub keep_last :
    (now cnt : ℕ) (e : Entry) (es : List Entry)
    → leb e.expire_time now ≡ false
    → (cnt + 1 == 256) ≡ true
    → keep now cnt (e ∷ es) ≡ renewed now e ∷ []
unfolding keep
keep_last now cnt e es t u = ground arith

pub keep_more :
    (now cnt : ℕ) (e : Entry) (es : List Entry)
    → leb e.expire_time now ≡ false
    → (cnt + 1 == 256) ≡ false
    → keep now cnt (e ∷ es) ≡ renewed now e ∷ keep now (cnt + 1) es
unfolding keep
keep_more now cnt e es t u = ground arith

take_nil : (n : ℕ) → take {A = Entry} n [] ≡ []
take_nil zero = refl
take_nil (suc n) = refl

none_alive : (now n : ℕ) → take n (map (renewed now) (alive now [])) ≡ []
unfolding alive
none_alive now n = take_nil n

alive_expired :
    (now : ℕ) (e : Entry) (es : List Entry)
    → leb e.expire_time now ≡ true
    → alive now (e ∷ es) ≡ alive now es
unfolding alive
alive_expired now e es t = rw t

alive_living :
    (now : ℕ) (e : Entry) (es : List Entry)
    → leb e.expire_time now ≡ false
    → alive now (e ∷ es) ≡ e ∷ alive now es
unfolding alive
alive_living now e es g = rw g

-- The first 256 living entries, renewed.
pub keep-take :
    (now cnt : ℕ) (es : List Entry)
    → cnt < 256
    → keep now cnt es ≡ take (256 - cnt) (map (renewed now) (alive now es))
keep-take now cnt [] lt = keep_nil now cnt ∙ sym (none_alive now (256 - cnt))
keep-take now cnt (e ∷ es) lt = elim (Bool-cases (leb e.expire_time now)) [
  | inl t ↦
      keep_expired now cnt e es t ∙ keep-take now cnt es lt ∙ rw (alive_expired now e es t) refl
  | inr g ↦ elim (Bool-cases (cnt + 1 == 256)) [
    | inl u ↦
        let one : 256 - cnt ≡ 1 = omega (arith, (==_iff (cnt + 1) 256).0 u) in
        keep_last now cnt e es g u ∙ rw (alive_living now e es g, one) refl
    | inr m ↦
        let ne : cnt + 1 ≢ 256 = λ t. absurd (ground arith) in
        let fewer : 256 - cnt ≡ suc (256 - (cnt + 1)) = omega arith in
        keep_more now cnt e es g m
        ∙ rw (alive_living now e es g, fewer)
            (ap (◌∷◌ (renewed now e)) (keep-take now (cnt + 1) es (omega arith)))
  ]
]

-- What holds of the addresses of the entries holds of those kept.
pub All-keep :
    (P : ℕ → Type 0) (now cnt : ℕ) (es : List Entry)
    → All (λ e. P e.address) es
    → All (λ e. P e.address) (keep now cnt es)
unfolding keep
All-keep P now cnt [] h = tt
All-keep P now cnt (e ∷ es) h = elim (Bool-cases (leb e.expire_time now)) [
  | inl t ↦ rw (keep_expired now cnt e es t) (All-keep P now cnt es h.1)
  | inr g ↦ elim (Bool-cases (cnt + 1 == 256)) [
    | inl u ↦ rw (keep_last now cnt e es g u) (h.0, tt)
    | inr m ↦ rw (keep_more now cnt e es g m) (h.0, All-keep P now (cnt + 1) es h.1)
  ]
]

pub Distinct-keep : (now cnt : ℕ) (es : List Entry) → Distinct es → Distinct (keep now cnt es)
unfolding keep
Distinct-keep now cnt [] d = tt
Distinct-keep now cnt (e ∷ es) d = elim (Bool-cases (leb e.expire_time now)) [
  | inl t ↦ rw (keep_expired now cnt e es t) (Distinct-keep now cnt es d.1)
  | inr g ↦ elim (Bool-cases (cnt + 1 == 256)) [
    | inl u ↦ rw (keep_last now cnt e es g u) (tt, tt)
    | inr m ↦
        rw (keep_more now cnt e es g m)
          (All-keep (λ a. e.address ≢ a) now (cnt + 1) es d.0, Distinct-keep now (cnt + 1) es d.1)
  ]
]
