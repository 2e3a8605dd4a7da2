-- ===== src/Resolver/Relay.antt =====
-- Requests for a name that neither the cache nor the database of src/socket/resolv.c knows: what the
-- upstream server replies decides the response.
use mathlib.Core.List.{reverse}
use baka_dns.Base.{
  ℕ, ◌+◌, ◌%◌, ◌^◌, ◌≤◌, ◌<◌, ◌≡◌, sym, ap, ◌∙◌, subst, some, List, [], All, arith, length, ◌>>=◌,
  replicate,
}
use baka_dns.Message.{MessageQuestion, ResourceRecord}
use baka_dns.Message.Labels.{Label}
use baka_dns.Message.Wire.{WireMessage, IsMessage, IsRecord, message_of, encode}
use baka_dns.Trees.{TreeNode}
use baka_dns.Trees.Find.{IsTree}
use baka_dns.Trees.Search.{stored}
use baka_dns.Cache.{Cache}
use baka_dns.Cache.Segment.{Entry}
use baka_dns.Cache.Walk.{IsCache, find_list}
use baka_dns.Cache.Total.{AllHold}
use baka_dns.Client.{Network}
use baka_dns.Client.Reply.{Reply, answer, asked}
use baka_dns.Resolver.{ancount_max, zero_record}
use baka_dns.Resolver.Handle.{conclude, look_up, resolv_handle}
use baka_dns.Resolver.Caching.{AfterAll, put_all-AfterAll}
use baka_dns.Resolver.Respond.{sent_as}
use baka_dns.Resolver.Local.{
  IsRequest, IsRecord-IsStored, look_up_one, lookup_loop-missed, missed_lookup,
}
use baka_dns.Resolver.External.{IsExchange, external_lookup, ask_upstream-relayed, finish-relayed}

abbrev unused_buffer : List ResourceRecord
unused_buffer = replicate ancount_max zero_record

with_id : (a : WireMessage) (id : ℕ) → id < 2 ^ 16 → IsMessage a → IsMessage (record a { id = id })
with_id a id small k = record {
  id = small;
  whole = k.whole;
  qdcount = k.qdcount;
  ancount = k.ancount;
  nscount = k.nscount;
  arcount = k.arcount;
  questions = k.questions;
  answers = k.answers;
  authorities = k.authorities;
  additions = k.additions;
}

-- A request for a name that neither the cache nor the database knows, and an exchange with the
-- upstream server.
module _ (fuel now : ℕ) (net : Network) (tree : TreeNode) (c : Cache) (es : List Entry)
    (sendbuf : List ℕ) (ans_size : ℕ) (w : WireMessage) (q : MessageQuestion) (ls : List Label)
    (reply : Reply) (r : IsRequest w q ls) (v : IsCache c es) (h : AllHold IsRecord es)
    (missed : find_list es q.qname q.qtype q.qclass ≡ some []) (t : IsTree tree)
    (unknown : stored tree (reverse ls) q.qtype ≡ []) (x : IsExchange net w reply)
    (enough : 255 ≤ fuel) where
  some_question : 0 < length w.questions
  some_question = omega (arith, ap length r.one)

  look_up-external_lookup :
      length es < fuel → look_up fuel now tree c (message_of w) ≡ some (external_lookup c)
  look_up-external_lookup lt =
      look_up_one fuel now net tree c sendbuf ans_size w q ls r
      ∙ lookup_loop-missed fuel now net tree c sendbuf ans_size w q ls r es v h missed lt t
          (subst (All IsRecord) (sym unknown) tt)
      ∙ ap (missed_lookup c) unknown

  -- The reply of the upstream server is a message with the id that was sent: it is relayed, with the
  -- id of the request. Afterwards the cache has, for each of its answers and for each record that the
  -- cache had before, a record that equals it under `rr_cmp`, which reads the data up to a zero byte
  -- and not the time to live. The request in memory has the EDNS record.
  pub resolv_handle-relayed :
      (a : WireMessage)
      → reply ≡ answer a
      → a.id ≡ net.rand % 2 ^ 16
      → length es + length a.answers < fuel
      → length (encode (record a { id = w.id })) ≤ length sendbuf
      → length sendbuf < 2 ^ 32
      → (c' : Cache) × (resolv_handle fuel now net tree c sendbuf ans_size (message_of w)
          ≡ some (some (sent_as (record a { id = w.id }) sendbuf (message_of (asked w.id w)) c')))
        × AfterAll IsRecord c' es a.answers
  unfolding resolv_handle conclude
  resolv_handle-relayed a e same lt room small =
      let y : IsExchange net w (answer a) = subst (IsExchange net w) e x in
      let k : IsMessage a = y.valid.0 in
      let k' : IsMessage (record a { id = w.id }) = with_id a w.id r.valid.id k in
      let (c', put, after) =
        put_all-AfterAll IsRecord IsRecord-IsStored fuel now c es a.answers v h k.answers
          (omega arith) in
      let asks =
        ask_upstream-relayed fuel now net sendbuf ans_size w r.valid some_question c enough a c' y
          same put in
      let ends =
        finish-relayed fuel now net sendbuf ans_size w r.valid some_question c enough a c' k' room
          small in
      (
        c',
        rw (r.request, resolv_handle)
            (rw (look_up-external_lookup (omega arith), ◌>>=◌) (rw (asks, ◌>>=◌) ends)),
        after,
      )
