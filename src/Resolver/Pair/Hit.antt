-- ===== src/Resolver/Pair/Hit.antt =====
-- A question in the loop of `resolv_handle` of src/socket/resolv.c that the cache answers.
use baka_dns.Base.{
  ℕ, suc, ◌+◌, ◌*◌, ◌≤◌, ◌<◌, ◌≡◌, sym, ap, ap₂, ◌∙◌, true, Option, some, List, [], ◌∷◌, arith,
  length, ◌>>=◌, >>=_assoc,
}
use baka_dns.Message.{MessageQuestion, ResourceRecord}
use baka_dns.Message.Labels.{Label, encode_labels}
use baka_dns.Message.Name.{domain_len}
use baka_dns.Message.Wire.{IsRecord}
use baka_dns.Message.Wire.Write.{domain_len-IsName}
use baka_dns.Message.Record.{rr_cmp}
use baka_dns.Trees.{TreeNode}
use baka_dns.Database.Select.{IsDomain, encode_labels-IsName}
use baka_dns.Cache.{Cache}
use baka_dns.Cache.Segment.{Entry}
use baka_dns.Cache.Walk.{IsCache, find_list, cache_find_rr-find_list}
use baka_dns.Cache.Found.{find_list-Contains}
use baka_dns.Cache.Total.{AllHold-IsStored, AllHold, Any, Contains}
use baka_dns.Resolver.{Lookup, fill, put_all, lookup_loop, from_cache}
use baka_dns.Resolver.Caching.{find_list-All, AfterAll, put_all-AfterAll}
use baka_dns.Resolver.Local.{IsRecord-IsStored}
use baka_dns.Resolver.Question.{print_question-question_text}
use baka_dns.Resolver.Faults.{>>=-at_some, >>=-same}

-- A question for the name, type and class of a record.
pub record Asks (q : MessageQuestion) (rr : ResourceRecord) (ls : List Label) : Type 0 where
  pub domain : IsDomain ls
  pub qname : q.qname ≡ encode_labels ls
  pub name : rr.name ≡ q.qname
  pub type : rr.type ≡ q.qtype
  pub class : rr.class ≡ q.qclass

-- The search for a question when the cache has the record that it asks for.
pub record IsHit (fuel now : ℕ) (tree : TreeNode) (s : Lookup) (es : List Entry)
    (q : MessageQuestion) : Type 0 where
  pub found : List ResourceRecord
  pub cache : Cache
  pub inhabited : 0 < length found
  pub few : length found ≤ length es
  pub after : AfterAll IsRecord cache es found
  pub next :
      (n : ℕ) (questions : List (Option MessageQuestion))
      → lookup_loop fuel now tree (suc n) (some q ∷ questions) s ≡ (
          fill s.ans_buffer found >>= λ buf.
          lookup_loop fuel now tree n questions
            (record s { ans_cnt = s.ans_cnt + length found; ans_buffer = buf; cache = cache }))

module _ (fuel now : ℕ) (tree : TreeNode) where
  lookup_loop-hit :
      (s : Lookup) (es : List Entry) (q : MessageQuestion) (ls : List Label) (rr : ResourceRecord)
      (rrs : List ResourceRecord) (cache : Cache) (n : ℕ)
      (questions : List (Option MessageQuestion))
      → IsDomain ls
      → q.qname ≡ encode_labels ls
      → IsCache s.cache es
      → length es < fuel
      → find_list es q.qname q.qtype q.qclass ≡ some (rr ∷ rrs)
      → put_all fuel now s.cache (rr ∷ rrs) ≡ some cache
      → lookup_loop fuel now tree (suc n) (some q ∷ questions) s ≡ (
          fill s.ans_buffer (rr ∷ rrs) >>= λ buf.
          lookup_loop fuel now tree n questions
            (record s { ans_cnt = s.ans_cnt + length (rr ∷ rrs); ans_buffer = buf; cache = cache }))
  unfolding lookup_loop from_cache
  lookup_loop-hit s es q ls rr rrs cache n questions d name v enough found put =
      let len = domain_len-IsName (encode_labels ls) (encode_labels-IsName ls d) in
      let hit = cache_find_rr-find_list fuel s.cache es q.qname q.qtype q.qclass v enough ∙ found in
      rw (print_question-question_text q ls d name, ◌>>=◌)
        (rw (ap domain_len name ∙ len, ◌>>=◌)
          (rw (hit, ◌>>=◌)
            (>>=_assoc (fill s.ans_buffer (rr ∷ rrs)) _ _
              ∙ >>=-same (fill s.ans_buffer (rr ∷ rrs)) _ _ λ buf.
                >>=_assoc (put_all fuel now s.cache (rr ∷ rrs)) _ _
                ∙ >>=-at_some (put_all fuel now s.cache (rr ∷ rrs)) cache _ put)))

  pub Asks-IsHit :
      (s : Lookup) (es : List Entry) (q : MessageQuestion) (rr : ResourceRecord) (ls : List Label)
      → Asks q rr ls
      → IsCache s.cache es
      → AllHold IsRecord es
      → IsRecord rr
      → Contains es rr
      → 2 * length es < fuel
      → IsHit fuel now tree s es q
  Asks-IsHit s es q rr ls a v h k there enough =
      let (found, e, few, has) =
        find_list-Contains es rr (AllHold-IsStored IsRecord IsRecord-IsStored es h)
          (IsRecord-IsStored rr k) in
      let asked : find_list es q.qname q.qtype q.qclass ≡ some found =
        ap (λ d. find_list es d q.qtype q.qclass) (sym a.name)
        ∙ ap₂ (find_list es rr.name) (sym a.type) (sym a.class)
        ∙ e in
      let all =
        find_list-All IsRecord IsRecord-IsStored es q.qname q.qtype q.qclass found h asked in
      let (cache, put, after) =
        put_all-AfterAll IsRecord IsRecord-IsStored fuel now s.cache es found v h all
          (omega arith) in
      go found cache (has there) few after asked put
    where
      go :
          (found : List ResourceRecord) (cache : Cache)
          → Any (λ x. rr_cmp x rr ≡ some true) found
          → length found ≤ length es
          → AfterAll IsRecord cache es found
          → find_list es q.qname q.qtype q.qclass ≡ some found
          → put_all fuel now s.cache found ≡ some cache
          → IsHit fuel now tree s es q
      go [] cache has few after asked put = absurd has
      go (x ∷ found) cache has few after asked put = record {
        found = x ∷ found;
        cache = cache;
        inhabited = omega arith;
        few = few;
        after = after;
        next = λ n questions.
            lookup_loop-hit s es q ls x found cache n questions a.domain a.qname v (omega arith)
              asked put;
      }
