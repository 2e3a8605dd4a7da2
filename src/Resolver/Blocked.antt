-- ===== src/Resolver/Blocked.antt =====
-- The branch `n_rr_db > 0` of `resolv_handle` in src/socket/resolv.c: records of the database, one of
-- which may be blocked.
use baka_dns.Base.{
  ℕ, ◌+◌, ◌≤◌, ◌≡◌, refl, ap, ap₂, ◌∙◌, true, false, none, some, List, [], ◌∷◌, ◌++◌, All, arith,
  length, drop, drop-append_self, append_assoc, set, get_elem?, get_elem?-drop, ◌>>=◌, replicate,
  length-replicate,
}
use baka_dns.Message.{ResourceRecord}
use baka_dns.Message.Wire.{IsRecord}
use baka_dns.Message.Record.{check_blocked}
use baka_dns.Cache.{Cache}
use baka_dns.Resolver.{ancount_max, zero_record, Lookup, find_blocked, from_database}
use baka_dns.Resolver.Caching.{fill-append}
use baka_dns.Resolver.Respond.{local_lookup}

-- The records of the database for a question, and the answers that they give: all of them if none is
-- blocked, and none if one is.
pub data Served : List ResourceRecord → List ResourceRecord → Type 0 where
  all_open :
      (rrs : List ResourceRecord) → All (λ rr. check_blocked rr ≡ some false) rrs → Served rrs rrs
  one_blocked :
      (pre post : List ResourceRecord) (rr : ResourceRecord)
      → All (λ x. check_blocked x ≡ some false) pre
      → check_blocked rr ≡ some true
      → Served (pre ++ (rr ∷ post)) []

find_blocked-none :
    (i : ℕ) (rrs : List ResourceRecord)
    → All (λ rr. check_blocked rr ≡ some false) rrs
    → find_blocked i rrs ≡ some none
unfolding find_blocked
find_blocked-none i [] h = refl
find_blocked-none i (rr ∷ rrs) h = rw (h.0, ◌>>=◌) (find_blocked-none (i + 1) rrs h.1)

find_blocked-some :
    (i : ℕ) (pre post : List ResourceRecord) (rr : ResourceRecord)
    → All (λ x. check_blocked x ≡ some false) pre
    → check_blocked rr ≡ some true
    → find_blocked i (pre ++ (rr ∷ post)) ≡ some (some (i + length pre))
unfolding find_blocked
find_blocked-some i [] post rr h t = rw (t, ◌>>=◌) (ap (λ j. some (some j)) (omega arith))
find_blocked-some i (x ∷ pre) post rr h t =
    rw (h.0, ◌>>=◌)
      (find_blocked-some (i + 1) pre post rr h.1 t ∙ ap (λ j. some (some j)) (omega arith))

-- The variables before the loop.
abbrev pub start : Cache → Lookup
start c = record {
  external_dns_flag = false;
  failure_flag = 0;
  ans_cnt = 0;
  ans_buffer = replicate ancount_max zero_record;
  cache = c;
}

pub from_database-Served :
    (c : Cache) (rrs answers : List ResourceRecord)
    → Served rrs answers
    → length rrs ≤ ancount_max
    → (tail : List ResourceRecord) × (from_database (start c) rrs
        ≡ some (local_lookup answers tail c))
unfolding from_database
from_database-Served c _ _ (all_open rrs h) few =
    let buf = replicate ancount_max zero_record in
    let full = fill-append buf rrs (omega (arith, length-replicate ancount_max zero_record)) in
    (drop (length rrs) buf, rw (full, ◌>>=◌) (rw (find_blocked-none 0 rrs h, ◌>>=◌) refl))
from_database-Served c _ _ (one_blocked pre post rr h t) few =
    let buf = replicate ancount_max zero_record in
    let found = pre ++ (rr ∷ post) in
    let tail = drop (length found) buf in
    let full = fill-append buf found (omega (arith, length-replicate ancount_max zero_record)) in
    let e = append_assoc pre (rr ∷ post) tail in
    let at : get_elem? (found ++ tail) (0 + length pre) ≡ some rr =
      get_elem?-drop (found ++ tail) (0 + length pre) rr (post ++ tail)
        (ap₂ drop (omega arith) e ∙ drop-append_self pre (rr ∷ (post ++ tail))) in
    (
      set (found ++ tail) (0 + length pre) (record rr { name = []; rdata = none }),
      rw (full, ◌>>=◌) (rw (find_blocked-some 0 pre post rr h t, ◌>>=◌) (rw (at, ◌>>=◌) refl)),
    )

pub Served-All :
    (rrs answers : List ResourceRecord)
    → Served rrs answers
    → All IsRecord rrs
    → All IsRecord answers × (length answers ≤ length rrs)
Served-All _ _ (all_open rrs k) h = (h, omega arith)
Served-All _ _ (one_blocked pre post rr k t) h = (tt, omega arith)
