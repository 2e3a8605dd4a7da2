-- ===== src/Cache/Total.antt =====
-- `cache_put_rr` of src/storage/cache.c on any record, whether the cache has it already or not.
use baka_dns.Base.{
  ℕ, ◌+◌, ◌≤◌, ◌<◌, ◌≡◌, refl, ap, ◌∙◌, subst, true, false, some, List, [], ◌∷◌, ◌++◌, ◌⊎◌, inl,
  inr, All, All-append, arith, length, length-append, Bool-cases,
}
use baka_dns.Message.{ResourceRecord}
use baka_dns.Message.Record.{rr_cmp}
use baka_dns.Message.Record.Compare.{rr_cmp-Decides}
use baka_dns.Trees.Search.{IsStored}
use baka_dns.Cache.{Cache, cache_put_rr}
use baka_dns.Cache.Segment.{Entry, All-split}
use baka_dns.Cache.Walk.{IsCache}
use baka_dns.Cache.Put.{new_entry, cache_put_rr_new, cache_put_rr_old}

module _ {A : Type 0} where
  abbrev pub Any : (A → Type 0) → List A → Type 0
  Any P [] = ⊥
  Any P (x ∷ xs) = P x ⊎ Any P xs

  Any-left : (P : A → Type 0) (xs ys : List A) → Any P xs → Any P (xs ++ ys)
  Any-left P [] ys h = absurd h
  Any-left P (x ∷ xs) ys (inl h) = inl h
  Any-left P (x ∷ xs) ys (inr h) = inr (Any-left P xs ys h)

  Any-right : (P : A → Type 0) (xs ys : List A) → Any P ys → Any P (xs ++ ys)
  Any-right P [] ys h = h
  Any-right P (x ∷ xs) ys h = inr (Any-right P xs ys h)

  -- An element that moves to the front is still there, and so are the others.
  Any-front :
      (P : A → Type 0) (xs ys : List A) (x : A) → Any P (xs ++ (x ∷ ys)) → Any P (x ∷ (xs ++ ys))
  Any-front P [] ys x h = h
  Any-front P (y ∷ xs) ys x (inl h) = inr (inl h)
  Any-front P (y ∷ xs) ys x (inr h) = elim (Any-front P xs ys x h) [
    | inl k ↦ inl k
    | inr k ↦ inr (inr k)
  ]

-- The cache answers `rr_cmp` with 1 for the record.
abbrev pub Contains : List Entry → ResourceRecord → Type 0
Contains es rr = Any (λ e. rr_cmp e.rr rr ≡ some true) es

-- The entries that hold records with a property.
abbrev pub AllHold : (ResourceRecord → Type 0) → List Entry → Type 0
AllHold P es = All (λ e. P e.rr) es

pub AllHold-IsStored :
    (P : ResourceRecord → Type 0) (stores : (rr : ResourceRecord) → P rr → IsStored rr)
    (es : List Entry)
    → AllHold P es
    → AllHold IsStored es
AllHold-IsStored P stores [] h = tt
AllHold-IsStored P stores (x ∷ es) h = (stores x.rr h.0, AllHold-IsStored P stores es h.1)

-- The first entry that equals the record under `rr_cmp`, if there is one.
first_match :
    (es : List Entry) (rr : ResourceRecord)
    → AllHold IsStored es
    → IsStored rr
    → All (λ e. rr_cmp e.rr rr ≡ some false) es
      ⊎ ((pre : List Entry) × (e : Entry) × (post : List Entry) × (es ≡ pre ++ (e ∷ post))
          × All (λ x. rr_cmp x.rr rr ≡ some false) pre
          × (rr_cmp e.rr rr ≡ some true))
first_match [] rr h k = inl tt
first_match (e ∷ es) rr h k =
    let (b, same, w) = rr_cmp-Decides e.rr rr h.0.0 k.0 h.0.1 k.1 in
    elim (Bool-cases b) [
      | inl t ↦ inr ([], e, es, refl, tt, same ∙ ap some t)
      | inr f ↦ elim (first_match es rr h.1 k) [
        | inl none_of ↦ inl (same ∙ ap some f, none_of)
        | inr (pre, x, post, parts, before, at) ↦
            inr (e ∷ pre, x, post, ap (◌∷◌ e) parts, (same ∙ ap some f, before), at)
      ]
    ]

pub rr_cmp_self : (rr : ResourceRecord) → IsStored rr → rr_cmp rr rr ≡ some true
rr_cmp_self rr h =
    let (b, same, w) = rr_cmp-Decides rr rr h.0 h.0 h.1 h.1 in
    same ∙ ap some (w.1 ((refl, refl, refl, refl), refl))

-- What a call of `cache_put_rr` makes of the entries `es`: the cache stays valid, with one more entry
-- at most; it has the record and all records that it had.
pub record AfterPut (P : ResourceRecord → Type 0) (c' : Cache) (es : List Entry)
    (rr : ResourceRecord) : Type 0 where
  pub entries : List Entry
  pub valid : IsCache c' entries
  pub hold : AllHold P entries
  pub few : length entries ≤ length es + 1
  pub has : Contains entries rr
  pub kept : (old : ResourceRecord) → Contains es old → Contains entries old

pub cache_put_rr-AfterPut :
    (P : ResourceRecord → Type 0) (stores : (rr : ResourceRecord) → P rr → IsStored rr)
    (fuel now : ℕ) (c : Cache) (es : List Entry) (rr : ResourceRecord)
    → IsCache c es
    → AllHold P es
    → P rr
    → length es < fuel
    → (c' : Cache) × (cache_put_rr fuel now c rr ≡ some c') × AfterPut P c' es rr
cache_put_rr-AfterPut P stores fuel now c es rr v h k lt =
    elim (first_match es rr (AllHold-IsStored P stores es h) (stores rr k)) [
      | inl none_of ↦
          let (c', done, v') = cache_put_rr_new fuel now c es rr v lt (stores rr k) none_of in
          (
            c',
            done,
            record {
              entries = new_entry now c rr ∷ es;
              valid = v';
              hold = (k, h);
              few = omega arith;
              has = inl (rr_cmp_self rr (stores rr k));
              kept = λ old there. inr there;
            },
          )
      | inr (pre, e, post, parts, before, at) ↦
          let n = ap length parts ∙ length-append pre (e ∷ post) in
          let (c', done, v') =
            cache_put_rr_old fuel now c pre post e rr (subst (IsCache c) parts v) (omega arith)
              before at in
          let (h1, h2) = All-split (λ x. P x.rr) pre (e ∷ post) (subst (AllHold P) parts h) in
          (
            c',
            done,
            record {
              entries = e ∷ (pre ++ post);
              valid = v';
              hold = (h2.0, All-append (λ x. P x.rr) pre post h1 h2.1);
              few = omega (arith, length-append pre post);
              has = inl at;
              kept = λ old there.
                  Any-front (λ x. rr_cmp x.rr old ≡ some true) pre post e
                    (subst (λ xs. Contains xs old) parts there);
            },
          )
    ]
