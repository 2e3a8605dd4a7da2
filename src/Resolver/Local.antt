-- ===== src/Resolver/Local.antt =====
-- Requests that `resolv_handle` of src/socket/resolv.c answers without the upstream server.
use mathlib.Core.List.{reverse}
use baka_dns.Base.{
  ℕ, ◌+◌, ◌^◌, ◌≤◌, ◌<◌, ◌≡◌, refl, ap, ap₂, ◌∙◌, true, not, ◌==◌, Option, some, List, [], ◌∷◌, All,
  arith, length, drop, ◌>>=◌, replicate, length-replicate,
}
use baka_dns.Message.{MessageQuestion, ResourceRecord}
use baka_dns.Message.Flags.{opcode_of, qr_of}
use baka_dns.Message.Labels.{Label, encode_labels}
use baka_dns.Message.Wire.{WireMessage, IsMessage, IsRecord, message_of, array_of, encode}
use baka_dns.Message.Name.{domain_len}
use baka_dns.Message.Wire.Write.{domain_len-IsName}
use baka_dns.Trees.{TreeNode}
use baka_dns.Trees.Find.{IsTree}
use baka_dns.Trees.Search.{IsStored, stored}
use baka_dns.Database.Select.{IsDomain, encode_labels-IsName, select_database-stored}
use baka_dns.Cache.{Cache}
use baka_dns.Cache.Segment.{Entry}
use baka_dns.Cache.Walk.{IsCache, find_list, cache_find_rr-find_list}
use baka_dns.Cache.Total.{AllHold}
use baka_dns.Client.{Network, elements_of}
use baka_dns.Resolver.{ancount_max, zero_record, Lookup, from_cache, from_database, lookup_loop}
use baka_dns.Resolver.Handle.{look_up, resolv_handle}
use baka_dns.Resolver.Caching.{fill-append, find_list-All, AfterAll, put_all-AfterAll}
use baka_dns.Resolver.Respond.{local_response, local_lookup, sent_as, conclude-local_response}
use baka_dns.Resolver.Blocked.{Served, start, from_database-Served, Served-All}
use baka_dns.Resolver.Question.{print_question-question_text}

-- A valid request with one question, for a name that the database can hold.
pub record IsRequest (w : WireMessage) (q : MessageQuestion) (ls : List Label) : Type 0 where
  pub valid : IsMessage w
  pub request : qr_of w.misc1 ≡ 0
  pub query : opcode_of w.misc1 ≡ 0
  pub one : w.questions ≡ q ∷ []
  pub domain : IsDomain ls
  pub name : q.qname ≡ encode_labels ls

pub IsRecord-IsStored : (rr : ResourceRecord) → IsRecord rr → IsStored rr
IsRecord-IsStored rr h = (h.name, h.holds)

All-IsStored : (rrs : List ResourceRecord) → All IsRecord rrs → All IsStored rrs
All-IsStored [] h = tt
All-IsStored (rr ∷ rrs) h = (IsRecord-IsStored rr h.0, All-IsStored rrs h.1)

-- The search for a question that the cache does not answer, by the records of the database.
abbrev pub missed_lookup : Cache → List ResourceRecord → Option Lookup
missed_lookup c [] = some (record (start c) { external_dns_flag = true })
missed_lookup c (rr ∷ rrs) = from_database (start c) (rr ∷ rrs) >>= λ s1. some s1

missed_lookup-inhabited :
    (c : Cache) (rrs : List ResourceRecord) (s : Lookup)
    → 0 < length rrs
    → from_database (start c) rrs ≡ some s
    → missed_lookup c rrs ≡ some s
missed_lookup-inhabited c [] s h e = absurd (omega arith)
missed_lookup-inhabited c (rr ∷ rrs) s h e = rw (e, ◌>>=◌)

pub is_query : {n : ℕ} → n ≡ 0 → (n == 0) ≡ true
is_query e = rw e refl

module _ (fuel now : ℕ) (net : Network) (tree : TreeNode) (c : Cache) (sendbuf : List ℕ)
    (ans_size : ℕ) (w : WireMessage) (q : MessageQuestion) (ls : List Label)
    (r : IsRequest w q ls) where
  -- The one question is looked up.
  pub look_up_one :
      look_up fuel now tree c (message_of w) ≡ lookup_loop fuel now tree 1 (some q ∷ []) (start c)
  unfolding look_up
  look_up_one =
      rw (r.query, look_up)
        (ap₂
          (λ qs b.
            lookup_loop fuel now tree (length qs) (elements_of (array_of qs))
              (record (start c) { external_dns_flag = not b }))
          r.one (is_query (r.query)))

  pub resolv_handle-local_lookup :
      (rrs tail : List ResourceRecord) (c' : Cache)
      → lookup_loop fuel now tree 1 (some q ∷ []) (start c) ≡ some (local_lookup rrs tail c')
      → All IsRecord rrs
      → length rrs < 2 ^ 16
      → length (encode (local_response w rrs)) ≤ length sendbuf
      → length sendbuf < 2 ^ 32
      → resolv_handle fuel now net tree c sendbuf ans_size (message_of w)
        ≡ some (some (sent_as (local_response w rrs) sendbuf (message_of w) c'))
  unfolding resolv_handle
  resolv_handle-local_lookup rrs tail c' e h few room small =
      rw (r.request, resolv_handle)
        (rw (look_up_one ∙ e, ◌>>=◌)
          (rw
            (conclude-local_response fuel now net sendbuf ans_size w rrs tail c' r.valid
              (omega (arith, ap length r.one)) h few room small)
            refl))

  -- The state of the cache before the call.
  module _ (es : List Entry) (v : IsCache c es) (h : AllHold IsRecord es) where
    lookup_loop-cached :
        (rr : ResourceRecord) (rrs : List ResourceRecord)
        → find_list es q.qname q.qtype q.qclass ≡ some (rr ∷ rrs)
        → length (rr ∷ rrs) ≤ ancount_max
        → length es + length (rr ∷ rrs) ≤ fuel
        → (c' : Cache) × (lookup_loop fuel now tree 1 (some q ∷ []) (start c)
            ≡ some (
                local_lookup
                  (rr ∷ rrs)
                  (drop (length (rr ∷ rrs)) (replicate ancount_max zero_record))
                  c'))
          × AfterAll IsRecord c' es (rr ∷ rrs)
    unfolding lookup_loop from_cache
    lookup_loop-cached rr rrs found few enough =
        let all =
          find_list-All IsRecord IsRecord-IsStored es q.qname q.qtype q.qclass (rr ∷ rrs) h found in
        let (c', put, after) =
          put_all-AfterAll IsRecord IsRecord-IsStored fuel now c es (rr ∷ rrs) v h all enough in
        let len = domain_len-IsName (encode_labels ls) (encode_labels-IsName ls r.domain) in
        let hit =
          cache_find_rr-find_list fuel c es q.qname q.qtype q.qclass v (omega arith) ∙ found in
        let full =
          fill-append (replicate ancount_max zero_record) (rr ∷ rrs)
            (omega (arith, length-replicate ancount_max zero_record)) in
        (
          c',
          rw (print_question-question_text q ls r.domain r.name, ◌>>=◌)
              (rw (ap domain_len r.name ∙ len, ◌>>=◌)
                (rw (hit, ◌>>=◌)
                  (rw (full, ◌>>=◌)
                    (rw (put, ◌>>=◌)
                      (ap
                        (λ n.
                          some
                            (record (local_lookup (rr ∷ rrs)
                              (drop (length (rr ∷ rrs)) (replicate ancount_max zero_record)) c') {
                                ans_cnt = n;
                              }))
                        (omega arith)))))),
          after,
        )

    -- A request whose question the cache answers with some records, at most 100 of them, gets exactly
    -- these records in the order in which `cache_find_rr` finds them, in a response with the id and the
    -- question of the request, the flags QR and AA, and the response code 0; the response is in
    -- `sendbuf` in its wire format. The upstream server is not asked. Afterwards the cache has, for each
    -- of these records and for each record that it had before, a record that equals it under `rr_cmp`,
    -- which reads the data up to a zero byte and not the time to live.
    pub resolv_handle-cached :
        (rr : ResourceRecord) (rrs : List ResourceRecord)
        → find_list es q.qname q.qtype q.qclass ≡ some (rr ∷ rrs)
        → length (rr ∷ rrs) ≤ ancount_max
        → length es + length (rr ∷ rrs) ≤ fuel
        → length (encode (local_response w (rr ∷ rrs))) ≤ length sendbuf
        → length sendbuf < 2 ^ 32
        → (c' : Cache) × (resolv_handle fuel now net tree c sendbuf ans_size (message_of w)
            ≡ some (some (sent_as (local_response w (rr ∷ rrs)) sendbuf (message_of w) c')))
          × AfterAll IsRecord c' es (rr ∷ rrs)
    resolv_handle-cached rr rrs found few enough room small =
        let all =
          find_list-All IsRecord IsRecord-IsStored es q.qname q.qtype q.qclass (rr ∷ rrs) h found in
        let (c', looked, after) = lookup_loop-cached rr rrs found few enough in
        (c', resolv_handle-local_lookup (rr ∷ rrs) _ c' looked all (omega arith) room small, after)

    module _ (missed : find_list es q.qname q.qtype q.qclass ≡ some []) (enough : length es < fuel)
        (t : IsTree tree) (d : All IsRecord (stored tree (reverse ls) q.qtype)) where
      pub lookup_loop-missed :
          lookup_loop fuel now tree 1 (some q ∷ []) (start c)
          ≡ missed_lookup c (stored tree (reverse ls) q.qtype)
      unfolding lookup_loop
      lookup_loop-missed =
          let len = domain_len-IsName (encode_labels ls) (encode_labels-IsName ls r.domain) in
          let miss = cache_find_rr-find_list fuel c es q.qname q.qtype q.qclass v enough ∙ missed in
          let local =
            select_database-stored tree q ls t r.domain r.name
              (All-IsStored (stored tree (reverse ls) q.qtype) d) in
          rw (print_question-question_text q ls r.domain r.name, ◌>>=◌)
            (rw (ap domain_len r.name ∙ len, ◌>>=◌) (rw (miss, ◌>>=◌) (rw (local, ◌>>=◌) refl)))

      -- A request whose question the cache does not answer, and for which the database has 1 to 100
      -- records, gets these records in the response, or none of them if one is blocked; the response is
      -- as for a cached question. The upstream server is not asked, and the cache is unchanged.
      pub resolv_handle-Served :
          (answers : List ResourceRecord)
          → Served (stored tree (reverse ls) q.qtype) answers
          → 0 < length (stored tree (reverse ls) q.qtype)
          → length (stored tree (reverse ls) q.qtype) ≤ ancount_max
          → length (encode (local_response w answers)) ≤ length sendbuf
          → length sendbuf < 2 ^ 32
          → resolv_handle fuel now net tree c sendbuf ans_size (message_of w)
            ≡ some (some (sent_as (local_response w answers) sendbuf (message_of w) c))
      resolv_handle-Served answers served some_record few room small =
          let (tail, done) = from_database-Served c _ answers served few in
          resolv_handle-local_lookup answers tail c
            (lookup_loop-missed
              ∙ missed_lookup-inhabited c (stored tree (reverse ls) q.qtype) _ some_record done)
            (Served-All _ answers served d).0 (omega (arith, (Served-All _ answers served d).1))
            room small
