-- ===== src/Resolver/Handle.antt =====
-- `resolv_handle` of src/socket/resolv.c behind its loop, and as a whole.
use baka_dns.Base.{
  ℕ, ◌%◌, ◌^◌, Bool, true, false, not, ◌&&◌, Option, none, some, List, [], ◌∷◌, map, ◌==◌, ◌>>=◌,
  replicate,
}
use baka_dns.Message.{MessageQuestion, Message, IntRet, ret, minus_one}
use baka_dns.Message.Flags.{qr_of, opcode_of, create_misc2}
use baka_dns.Message.Record.{mq_copy, free_heap_message}
use baka_dns.Message.Parse.{allocated}
use baka_dns.Message.Print.{message_to_u8}
use baka_dns.Trees.{TreeNode}
use baka_dns.Cache.{Cache}
use baka_dns.Client.{Network, returns, thread_exit, elements_of, send_question}
use baka_dns.Resolver.{
  ancount_max, zero_record, Lookup, put_all, lookup_loop, setup_answer, clear_counts, read_elements,
}

-- `ans`, `external_dns_flag`, `*query` and the cache behind the call of `send_question`.
pub record Upstream : Type 0 where
  pub ans : Message
  pub external_dns_flag : Bool
  pub query : Message
  pub cache : Cache

-- `if (external_dns_flag && !failure_flag)`; the inner `none` is `pthread_exit`.
unfoldable pub ask_upstream :
    ℕ → ℕ → Network → Lookup → Message → Message → Option (Option Upstream)
ask_upstream fuel now net s query ans = elim (s.external_dns_flag && s.failure_flag == 0) [
  | false ↦ some (
      some (record {
        ans = ans;
        external_dns_flag = s.external_dns_flag;
        query = query;
        cache = s.cache;
      }))
  | true ↦ do
    ans1 ← free_heap_message ans
    sent ← send_question fuel net query ans1
    elim sent [
      | thread_exit ↦ some none
      | returns result query1 ans2 ↦ elim result [
        | minus_one ↦ some (
            some (record {
              ans = clear_counts ans2;
              external_dns_flag = false;
              query = query1;
              cache = s.cache;
            }))
        | ret _ ↦ do
          rrs ← read_elements ans2.header.ancount (elements_of ans2.answer)
          cache ← put_all fuel now s.cache rrs
          some (
              some (record { ans = ans2; external_dns_flag = true; query = query1; cache = cache }))
      ]
    ]
]

-- `if (!external_dns_flag && !failure_flag)`: the records of `ans_buffer` are the answers.
unfoldable pub answer_locally : Bool → Lookup → Message → Option Message
answer_locally external_dns_flag s ans = elim (not external_dns_flag && s.failure_flag == 0) [
  | false ↦ some ans
  | true ↦ do
    let ancount = s.ans_cnt % 2 ^ 16
    rrs ← read_elements ancount (map some s.ans_buffer)
    some (record ans {
      header = record ans.header { ancount = ancount };
      answer = allocated ancount ans.answer (map some rrs);
    })
]

-- `if (failure_flag)`
unfoldable pub answer_failure : ℕ → Message → Option Message
answer_failure failure_flag ans = elim (failure_flag == 0) [
  | true ↦ some ans
  | false ↦ do
    ans1 ← free_heap_message ans
    some (
        clear_counts
          (record ans1 { header = record ans1.header { misc2 = create_misc2 0 0 failure_flag } }))
]

-- `mq_copy` of each question; its result is not looked at.
unfoldable pub copy_questions : List MessageQuestion → Option (List MessageQuestion)
copy_questions [] = some []
copy_questions (q ∷ qs) = do (_, copy) ← mq_copy q; copies ← copy_questions qs; some (copy ∷ copies)

-- `if (!external_dns_flag || failure_flag)`: the questions are pasted into the response.
unfoldable pub paste_questions : Bool → ℕ → Message → Message → Option Message
paste_questions external_dns_flag failure_flag query ans =
    elim (external_dns_flag && failure_flag == 0) [
      | true ↦ some ans
      | false ↦ do
        questions ← read_elements query.header.qdcount (elements_of query.question)
        copies ← copy_questions questions
        some (record ans {
          header = record ans.header { qdcount = query.header.qdcount };
          question = some (map some copies);
        })
    ]

-- The result, `sendbuf`, `*ans_size` and `*query` when `resolv_handle` returns, and the cache.
pub record Handled : Type 0 where
  pub result : IntRet
  pub sendbuf : List ℕ
  pub ans_size : ℕ
  pub query : Message
  pub cache : Cache

-- The end of `resolv_handle`: the response is written.
unfoldable pub respond : List ℕ → ℕ → Upstream → Message → Option Handled
respond sendbuf ans_size u ans = do
  (sendbuf1, msgsize) ← message_to_u8 ans sendbuf
  elim msgsize [
    | minus_one ↦ some (record {
      result = minus_one;
      sendbuf = sendbuf1;
      ans_size = ans_size;
      query = u.query;
      cache = u.cache;
    })
    | ret n ↦ do
      _ ← free_heap_message ans
      some (record {
        result = ret 1;
        sendbuf = sendbuf1;
        ans_size = n;
        query = u.query;
        cache = u.cache;
      })
  ]

-- What follows the call of the upstream server.
unfoldable pub finish : List ℕ → ℕ → Lookup → Upstream → Option (Option Handled)
finish sendbuf ans_size s u = do
  ans1 ← answer_locally u.external_dns_flag s u.ans
  ans2 ← answer_failure s.failure_flag ans1
  ans3 ← paste_questions u.external_dns_flag s.failure_flag u.query ans2
  done ← respond sendbuf ans_size u ans3
  some (some done)

-- What follows the loop over the questions.
unfoldable pub conclude : ℕ → ℕ → Network → List ℕ → ℕ → Message → Lookup → Option (Option Handled)
conclude fuel now net sendbuf ans_size query s =
    ask_upstream fuel now net s query (setup_answer query.header.id)
    >>= elim [ none ↦ some none | some u ↦ finish sendbuf ans_size s u ]

-- The loop over the questions, which is left out for an opcode other than a query.
unfoldable pub look_up : ℕ → ℕ → TreeNode → Cache → Message → Option Lookup
look_up fuel now tree cache query =
    let start : Lookup = record {
      external_dns_flag = not (opcode_of query.header.misc1 == 0);
      failure_flag = 0;
      ans_cnt = 0;
      ans_buffer = replicate ancount_max zero_record;
      cache = cache;
    } in
    elim (opcode_of query.header.misc1 == 0) [
      | false ↦ some start
      | true ↦ lookup_loop fuel now tree query.header.qdcount (elements_of query.question) start
    ]

-- The fuel is for the walks over the cache and for reading a reply; the inner `none` is
-- `pthread_exit`.
unfoldable pub resolv_handle :
    ℕ → ℕ → Network → TreeNode → Cache → List ℕ → ℕ → Message → Option (Option Handled)
resolv_handle fuel now net tree cache sendbuf ans_size query =
    elim (qr_of query.header.misc1 == 0) [
      | false ↦ some (
          some (record {
            result = minus_one;
            sendbuf = sendbuf;
            ans_size = ans_size;
            query = query;
            cache = cache;
          }))
      | true ↦ do
        s ← look_up fuel now tree cache query
        conclude fuel now net sendbuf ans_size query s
    ]
