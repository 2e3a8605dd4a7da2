-- ===== src/Resolver/Pair.antt =====
-- `resolv_handle` of src/socket/resolv.c on requests with two questions that the cache answers.
pub mod Hit
use native.Mathlib.Nat.{mod-eq_of_lt}
use baka_dns.Base.{
  ℕ, ◌+◌, ◌*◌, ◌%◌, ◌^◌, ◌≤◌, ◌<◌, ◌≡◌, refl, ap, ap₂, ◌∙◌, subst, false, not, none, some, List, [],
  ◌∷◌, ◌++◌, inl, inr, arith, length, length-append, length-drop, drop, ◌>>=◌, >>=_assoc, replicate,
  length-replicate,
}
use baka_dns.Message.{MessageQuestion, ResourceRecord}
use baka_dns.Message.Flags.{opcode_of, qr_of}
use baka_dns.Message.Labels.{Label}
use baka_dns.Message.Wire.{WireMessage, IsMessage, IsRecord, message_of, array_of}
use baka_dns.Trees.{TreeNode}
use baka_dns.Cache.{Cache}
use baka_dns.Cache.Segment.{Entry}
use baka_dns.Cache.Walk.{IsCache}
use baka_dns.Cache.Total.{AllHold, Contains}
use baka_dns.Client.{Network, elements_of}
use baka_dns.Resolver.{ancount_max, setup_answer, zero_record, Lookup, fill, lookup_loop}
use baka_dns.Resolver.Handle.{
  conclude, ask_upstream, finish, respond, answer_failure, answer_locally, look_up, resolv_handle,
}
use baka_dns.Resolver.Caching.{fill-append}
use baka_dns.Resolver.Blocked.{start}
use baka_dns.Resolver.Local.{is_query}
use baka_dns.Resolver.Respond.{
  local_response, local_lookup, paste_questions-message_of, answer_locally-message_of,
}
use baka_dns.Resolver.Faults.{
  >>=-at_none, >>=-at_some, Ragged, Ragged-take, read_elements-split, message_to_u8-Ragged,
  Ragged-fill, fill-cases, drop-replicate_zero,
}
use baka_dns.Resolver.Pair.Hit.{Asks, IsHit, Asks-IsHit}

-- The end of `resolv_handle` with records without a name among the answers.
module _ (fuel now : ℕ) (net : Network) (sendbuf : List ℕ) (ans_size : ℕ) (w : WireMessage)
    (v : IsMessage w) (some_question : 0 < length w.questions) where
  conclude-Ragged_list :
      (rrs tail : List ResourceRecord) (cache : Cache)
      → length rrs < 2 ^ 16
      → Ragged (length rrs) rrs
      → conclude fuel now net sendbuf ans_size (message_of w) (local_lookup rrs tail cache) ≡ none
  unfolding conclude ask_upstream setup_answer finish answer_failure respond
  conclude-Ragged_list rrs tail cache few h =
      let r = local_response w [] in
      rw (answer_locally-message_of 0 r rrs tail cache few, ◌>>=◌)
        (rw (paste_questions-message_of 0 (local_response w rrs) w v.questions some_question, ◌>>=◌)
          (rw (message_to_u8-Ragged w rrs sendbuf h, ◌>>=◌) refl))

  conclude-Ragged :
      (n : ℕ) (buf : List ResourceRecord) (cache : Cache)
      → n < 2 ^ 16
      → Ragged n buf
      → conclude fuel now net sendbuf ans_size (message_of w) (record {
        external_dns_flag = false;
        failure_flag = 0;
        ans_cnt = n;
        ans_buffer = buf;
        cache = cache;
      })
        ≡ none
  unfolding conclude ask_upstream finish answer_locally
  conclude-Ragged n buf cache few h = elim (read_elements-split n buf) [
    | inl e ↦ let k : n % 2 ^ 16 ≡ n = mod-eq_of_lt few in rw (k, e, ◌>>=◌) refl
    | inr (rrs, tail, parts, n_is) ↦
        ap₂
          (λ m b. conclude fuel now net sendbuf ans_size (message_of w) (record {
            external_dns_flag = false;
            failure_flag = 0;
            ans_cnt = m;
            ans_buffer = b;
            cache = cache;
          }))
          n_is parts
        ∙ conclude-Ragged_list rrs tail cache (omega arith) (
            Ragged-take rrs tail
              (subst (Ragged (length rrs)) parts (subst (λ m. Ragged m buf) n_is h)))
  ]

-- A valid request with two questions, each for a record that the cache has.
pub record IsPair (w : WireMessage) (es : List Entry) (q1 q2 : MessageQuestion)
    (rr1 rr2 : ResourceRecord) (ls1 ls2 : List Label) : Type 0 where
  pub valid : IsMessage w
  pub request : qr_of w.misc1 ≡ 0
  pub query : opcode_of w.misc1 ≡ 0
  pub two : w.questions ≡ q1 ∷ q2 ∷ []
  pub asks1 : Asks q1 rr1 ls1
  pub asks2 : Asks q2 rr2 ls2
  pub cached1 : IsRecord rr1 × Contains es rr1
  pub cached2 : IsRecord rr2 × Contains es rr2

module _ (fuel now : ℕ) (net : Network) (tree : TreeNode) (c : Cache) (es : List Entry)
    (sendbuf : List ℕ) (ans_size : ℕ) (w : WireMessage) (q1 q2 : MessageQuestion)
    (rr1 rr2 : ResourceRecord) (ls1 ls2 : List Label) (r : IsPair w es q1 q2 rr1 rr2 ls1 ls2)
    (v : IsCache c es) (h : AllHold IsRecord es) (enough : 4 * length es < fuel) where
  -- The second question, behind the first.
  second_question :
      (hit : IsHit fuel now tree (start c) es q1)
      → length hit.found ≤ ancount_max
      → (lookup_loop fuel now tree 1 (some q2 ∷ []) (record (start c) {
        ans_cnt = 0 + length hit.found;
        ans_buffer = hit.found ++ drop (length hit.found) (replicate ancount_max zero_record);
        cache = hit.cache;
      })
          >>= λ s. conclude fuel now net sendbuf ans_size (message_of w) s)
        ≡ none
  unfolding lookup_loop
  second_question hit le =
      let a = hit.after in
      let zs = drop (length hit.found) (replicate ancount_max zero_record) in
      let buf = hit.found ++ zs in
      let s : Lookup = record (start c) {
        ans_cnt = 0 + length hit.found;
        ans_buffer = buf;
        cache = hit.cache;
      } in
      let hit2 =
        Asks-IsHit fuel now tree s a.entries q2 rr2 ls2 r.asks2 a.valid a.hold r.cached2.0
          (a.kept rr2 r.cached2.1) (omega (arith, a.few, hit.few)) in
      let n : length buf ≡ ancount_max = omega (
        arith,
        length-append hit.found zs,
        length-drop (length hit.found) (replicate ancount_max zero_record),
        length-replicate ancount_max zero_record,
      ) in
      ap (λ m. m >>= λ t. conclude fuel now net sendbuf ans_size (message_of w) t) (hit2.next 0 [])
      ∙ >>=_assoc (fill buf hit2.found) _ _
      ∙ elim (fill-cases buf hit2.found) [
        | inl e ↦ >>=-at_none (fill buf hit2.found) _ e
        | inr le2 ↦
            >>=-at_some (fill buf hit2.found) _ _ (fill-append buf hit2.found le2)
            ∙ conclude-Ragged fuel now net sendbuf ans_size w r.valid
                (omega (arith, ap length r.two)) (0 + length hit.found + length hit2.found) _
                hit2.cache (omega arith)
                (subst (λ m. Ragged m (hit2.found ++ drop (length hit2.found) buf)) (omega arith)
                  (Ragged-fill hit.found hit2.found zs
                    (drop-replicate_zero (length hit.found) ancount_max) hit.inhabited
                    hit2.inhabited))
      ]

  look_up_two :
      look_up fuel now tree c (message_of w)
      ≡ lookup_loop fuel now tree 2 (some q1 ∷ some q2 ∷ []) (start c)
  unfolding look_up
  look_up_two =
      rw (r.query, look_up)
        (ap₂
          (λ qs b.
            lookup_loop fuel now tree (length qs) (elements_of (array_of qs))
              (record (start c) { external_dns_flag = not b }))
          r.two (is_query r.query))

  -- A request with two questions, each for the name, type and class of a record that the cache has, is
  -- a fault in `resolv_handle`: the answers to the second question overwrite those to the first at the
  -- start of `ans_buffer`, but they are counted for both, so that the records behind them, which have
  -- no name, are written into the response. The cache has any number of records, and four rounds of
  -- fuel for each.
  pub resolv_handle-two_cached :
      resolv_handle fuel now net tree c sendbuf ans_size (message_of w) ≡ none
  unfolding resolv_handle
  resolv_handle-two_cached =
      let hit =
        Asks-IsHit fuel now tree (start c) es q1 rr1 ls1 r.asks1 v h r.cached1.0 r.cached1.1
          (omega arith) in
      let zs = replicate ancount_max zero_record in
      rw (r.request, resolv_handle)
        (ap (λ m. m >>= λ s. conclude fuel now net sendbuf ans_size (message_of w) s)
            (look_up_two ∙ hit.next 1 (some q2 ∷ []))
          ∙ >>=_assoc (fill zs hit.found) _ _
          ∙ elim (fill-cases zs hit.found) [
            | inl e ↦ >>=-at_none (fill zs hit.found) _ e
            | inr le ↦
                >>=-at_some (fill zs hit.found) _ _ (fill-append zs hit.found le)
                ∙ second_question hit (omega (arith, length-replicate ancount_max zero_record))
          ])
