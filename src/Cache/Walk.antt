-- ===== src/Cache/Walk.antt =====
-- The walks of `cache_find_rr` and `cache_match_ln` in src/storage/cache.c as functions on the list of
-- the entries, and the invariant of the cache.
use baka_dns.Base.{
  ℕ, zero, suc, ◌%◌, ◌^◌, ◌<◌, ◌≡◌, refl, true, false, Option, none, some, List, [], ◌∷◌, ◌++◌,
  if◌then◌else◌, ◌>>=◌, All, arith, length,
}
use baka_dns.Message.{ResourceRecord}
use baka_dns.Message.Record.{rr_cmp, rr_copy}
use baka_dns.Cache.{
  Node, Heap, Cache, is_asked, find_loop, cache_find_rr, match_loop, cache_match_ln,
}
use baka_dns.Cache.Segment.{Entry, head_of, Segment, Apart, Distinct}

-- The cache holds the entries, in the order of the list: the dummy and their nodes are linked both ways, at
-- different addresses below the unused ones, and the size is their number in 32 bits.
pub record IsCache (c : Cache) (es : List Entry) : Type 0 where
  pub dummy_node : Node
  pub dummy_at : c.heap c.dummy ≡ some dummy_node
  pub linked : dummy_node.next ≡ head_of es
  pub segment : Segment c.heap c.dummy es
  pub apart : Apart c.dummy es
  pub distinct : Distinct es
  pub below : All (λ e. e.address < c.unused) es
  pub dummy_below : c.dummy < c.unused
  pub sized : c.size ≡ length es % 2 ^ 32

-- The entries that `cache_find_rr` is asked for, in order.
unfoldable pub find_list : List Entry → List ℕ → ℕ → ℕ → Option (List ResourceRecord)
find_list [] domain type class = some []
find_list (e ∷ es) domain type class = do
  asked ← is_asked domain type class e.rr
  rest ← find_list es domain type class
  if asked then (rr_copy e.rr >>= λ (_, copy). some (copy ∷ rest)) else some rest

find_loop-find_list :
    (es : List Entry) (fuel : ℕ) (h : Heap) (p : ℕ) (domain : List ℕ) (type class : ℕ)
    → Segment h p es
    → length es < fuel
    → find_loop fuel h (head_of es) domain type class ≡ find_list es domain type class
unfolding find_loop find_list Segment
find_loop-find_list es zero h p domain type class s lt = absurd (omega arith)
find_loop-find_list [] (suc fuel) h p domain type class s lt = refl
find_loop-find_list (e ∷ es) (suc fuel) h p domain type class s lt =
    rw (s.0, ◌>>=◌)
      (rw (find_loop-find_list es fuel h e.address domain type class s.1 (omega arith)) refl)

-- `cache_find_rr` on a cache that holds some entries, with a round of fuel for each of them and one
-- more, is the walk over their list, with the copies of the records that are asked for.
pub cache_find_rr-find_list :
    (fuel : ℕ) (c : Cache) (es : List Entry) (domain : List ℕ) (type class : ℕ)
    → IsCache c es
    → length es < fuel
    → cache_find_rr fuel c domain type class ≡ find_list es domain type class
unfolding cache_find_rr
cache_find_rr-find_list fuel c es domain type class v lt =
    rw (v.dummy_at, ◌>>=◌)
      (rw v.linked (find_loop-find_list es fuel c.heap c.dummy domain type class v.segment lt))

match_loop-none :
    (es : List Entry) (fuel : ℕ) (h : Heap) (p : ℕ) (rr : ResourceRecord)
    → Segment h p es
    → length es < fuel
    → All (λ e. rr_cmp e.rr rr ≡ some false) es
    → match_loop fuel h (head_of es) rr ≡ some none
unfolding match_loop Segment
match_loop-none es zero h p rr s lt f = absurd (omega arith)
match_loop-none [] (suc fuel) h p rr s lt f = refl
match_loop-none (e ∷ es) (suc fuel) h p rr s lt f =
    rw (s.0, ◌>>=◌) (rw (f.0, ◌>>=◌) (match_loop-none es fuel h e.address rr s.1 (omega arith) f.1))

match_loop-some :
    (pre post : List Entry) (e : Entry) (fuel : ℕ) (h : Heap) (p : ℕ) (rr : ResourceRecord)
    → Segment h p (pre ++ (e ∷ post))
    → length pre < fuel
    → All (λ x. rr_cmp x.rr rr ≡ some false) pre
    → rr_cmp e.rr rr ≡ some true
    → match_loop fuel h (head_of (pre ++ (e ∷ post))) rr ≡ some (some e.address)
unfolding match_loop Segment
match_loop-some pre post e zero h p rr s lt f t = absurd (omega arith)
match_loop-some [] post e (suc fuel) h p rr s lt f t = rw (s.0, ◌>>=◌) (rw (t, ◌>>=◌) refl)
match_loop-some (x ∷ pre) post e (suc fuel) h p rr s lt f t =
    rw (s.0, ◌>>=◌)
      (rw (f.0, ◌>>=◌) (match_loop-some pre post e fuel h x.address rr s.1 (omega arith) f.1 t))

pub cache_match_ln-none :
    (fuel : ℕ) (c : Cache) (es : List Entry) (rr : ResourceRecord)
    → IsCache c es
    → length es < fuel
    → All (λ e. rr_cmp e.rr rr ≡ some false) es
    → cache_match_ln fuel c rr ≡ some none
unfolding cache_match_ln
cache_match_ln-none fuel c es rr v lt f =
    rw (v.dummy_at, ◌>>=◌) (rw v.linked (match_loop-none es fuel c.heap c.dummy rr v.segment lt f))

pub cache_match_ln-some :
    (fuel : ℕ) (c : Cache) (pre post : List Entry) (e : Entry) (rr : ResourceRecord)
    → IsCache c (pre ++ (e ∷ post))
    → length pre < fuel
    → All (λ x. rr_cmp x.rr rr ≡ some false) pre
    → rr_cmp e.rr rr ≡ some true
    → cache_match_ln fuel c rr ≡ some (some e.address)
unfolding cache_match_ln
cache_match_ln-some fuel c pre post e rr v lt f t =
    rw (v.dummy_at, ◌>>=◌)
      (rw v.linked (match_loop-some pre post e fuel c.heap c.dummy rr v.segment lt f t))
