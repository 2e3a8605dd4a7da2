-- ===== src/Resolver/Respond.antt =====
-- The response that src/socket/resolv.c makes from local records, on the wire.
use native.Mathlib.Nat.{mod-eq_of_lt}
use baka_dns.Base.{
  ℕ, ◌%◌, ◌^◌, ◌≤◌, ◌<◌, ◌≡◌, refl, sym, ap, ◌∙◌, false, Option, some, List, [], ◌∷◌, ◌++◌, map,
  map-append, append-nil, All, arith, length, drop, ◌>>=◌, le→leb,
}
use baka_dns.Message.{MessageQuestion, ResourceRecord, Message, ret}
use baka_dns.Message.Flags.{create_misc1, create_misc2, tc_of}
use baka_dns.Message.Record.{mq_copy}
use baka_dns.Message.Record.Free.{free_heap_message-message_of}
use baka_dns.Message.Wire.{
  WireMessage, header_of, IsMessage, IsRecord, IsQuestion, message_of, encode, array_of,
}
use baka_dns.Message.Wire.Write.{message_to_u8-encode, domain_len-IsName, read_bytes_whole}
use baka_dns.Cache.{Cache}
use baka_dns.Client.{Network, elements_of}
use baka_dns.Client.Edns.{elements_of-array_of, array_of-inhabited}
use baka_dns.Resolver.{Lookup, read_elements, setup_answer}
use baka_dns.Resolver.Handle.{
  Upstream, ask_upstream, answer_locally, answer_failure, copy_questions, paste_questions, Handled,
  respond, finish, conclude,
}

-- The response with some answers: the id and the questions of the request, and the flags QR and AA.
abbrev pub local_response : WireMessage → List ResourceRecord → WireMessage
local_response w rrs = record {
  id = w.id;
  misc1 = create_misc1 1 0 1 0 0;
  misc2 = create_misc2 0 0 0;
  questions = w.questions;
  answers = rrs;
  authorities = [];
  additions = [];
}

module _ {A : Type 0} where
  pub read_elements-append :
      (xs : List A) (rest : List (Option A))
      → read_elements (length xs) (map some xs ++ rest) ≡ some xs
  unfolding read_elements
  read_elements-append [] rest = refl
  read_elements-append (x ∷ xs) rest = rw (read_elements-append xs rest, ◌>>=◌)

  pub read_elements-array_of :
      (xs : List A) → read_elements (length xs) (elements_of (array_of xs)) ≡ some xs
  read_elements-array_of xs =
      ap (read_elements (length xs)) (elements_of-array_of xs ∙ sym (append-nil (map some xs)))
      ∙ read_elements-append xs []

mq_copy_self : (q : MessageQuestion) → IsQuestion q → mq_copy q ≡ some (ret 1, q)
unfolding mq_copy
mq_copy_self q h =
    rw (domain_len-IsName q.qname h.qname, ◌>>=◌) (rw (read_bytes_whole q.qname, ◌>>=◌))

copy_questions_self : (qs : List MessageQuestion) → All IsQuestion qs → copy_questions qs ≡ some qs
unfolding copy_questions
copy_questions_self [] h = refl
copy_questions_self (q ∷ qs) h =
    rw (mq_copy_self q h.0, ◌>>=◌) (rw (copy_questions_self qs h.1, ◌>>=◌))

pub local_response-IsMessage :
    (w : WireMessage) (rrs : List ResourceRecord)
    → IsMessage w
    → All IsRecord rrs
    → length rrs < 2 ^ 16
    → IsMessage (local_response w rrs)
unfolding tc_of create_misc1
local_response-IsMessage w rrs v h small = record {
  id = v.id;
  whole = refl;
  qdcount = v.qdcount;
  ancount = small;
  nscount = omega arith;
  arcount = omega arith;
  questions = v.questions;
  answers = h;
  authorities = tt;
  additions = tt;
}

-- What the search leaves when it needs no upstream server and finds some answers: they stand at the
-- start of the buffer.
abbrev pub local_lookup : List ResourceRecord → List ResourceRecord → Cache → Lookup
local_lookup rrs tail cache = record {
  external_dns_flag = false;
  failure_flag = 0;
  ans_cnt = length rrs;
  ans_buffer = rrs ++ tail;
  cache = cache;
}

-- The buffer that holds the encoded response in front of what it held, and its size.
abbrev pub sent_as : WireMessage → List ℕ → Message → Cache → Handled
sent_as r sendbuf query cache = record {
  result = ret 1;
  sendbuf = encode r ++ drop (length (encode r)) sendbuf;
  ans_size = length (encode r);
  query = query;
  cache = cache;
}

pub respond-encode :
    (sendbuf : List ℕ) (ans_size : ℕ) (u : Upstream) (r : WireMessage)
    → IsMessage r
    → length (encode r) ≤ length sendbuf
    → length sendbuf < 2 ^ 32
    → respond sendbuf ans_size u (message_of r) ≡ some (sent_as r sendbuf u.query u.cache)
unfolding respond
respond-encode sendbuf ans_size u r v room small =
    rw
      (
        message_to_u8-encode r sendbuf v (omega arith),
        le→leb (length (encode r)) (length sendbuf) room,
        ◌>>=◌,
      )
      (rw (free_heap_message-message_of r, ◌>>=◌) refl)

-- The answer before the questions are pasted into it: the header has the count `k`.
abbrev pub unpasted : ℕ → WireMessage → Message
unpasted k x = record (message_of (record x { questions = [] })) {
  header = record (header_of x) { qdcount = k };
}

module _ (k : ℕ) (x : WireMessage) where
  pub paste_questions-message_of :
      (w : WireMessage)
      → All IsQuestion w.questions
      → 0 < length w.questions
      → paste_questions false 0 (message_of w) (unpasted k x)
        ≡ some (message_of (record x { questions = w.questions }))
  unfolding paste_questions
  paste_questions-message_of w h some_question =
      rw (read_elements-array_of w.questions, ◌>>=◌)
        (rw (copy_questions_self w.questions h, ◌>>=◌)
          (ap
            (λ qs.
              some (record (message_of (record x { questions = w.questions })) { question = qs }))
            (sym (array_of-inhabited w.questions some_question))))

  pub answer_locally-message_of :
      (rrs tail : List ResourceRecord) (cache : Cache)
      → length rrs < 2 ^ 16
      → answer_locally false (local_lookup rrs tail cache) (unpasted k (record x { answers = [] }))
        ≡ some (unpasted k (record x { answers = rrs }))
  unfolding answer_locally
  answer_locally-message_of rrs tail cache few =
      let n : length rrs % 2 ^ 16 ≡ length rrs = mod-eq_of_lt few in
      let found =
        ap (read_elements (length rrs)) (map-append some rrs tail)
        ∙ read_elements-append rrs (map some tail) in
      rw (n, found, ◌>>=◌) refl

-- The end of `resolv_handle` for an answer with local records. The state of the search is that of
-- `local_lookup`, whose cache does not matter here.
pub finish-message_of :
    (k : ℕ) (x w : WireMessage) (sendbuf : List ℕ) (ans_size : ℕ) (rrs tail : List ResourceRecord)
    (cache : Cache)
    → IsMessage (record x { questions = w.questions; answers = rrs })
    → 0 < length w.questions
    → length (encode (record x { questions = w.questions; answers = rrs })) ≤ length sendbuf
    → length sendbuf < 2 ^ 32
    → finish sendbuf ans_size (local_lookup rrs tail cache) (record {
      ans = unpasted k (record x { answers = [] });
      external_dns_flag = false;
      query = message_of w;
      cache = cache;
    })
      ≡ some (
          some (
            sent_as
              (record x { questions = w.questions; answers = rrs })
              sendbuf
              (message_of w)
              cache))
unfolding finish answer_failure
finish-message_of k x w sendbuf ans_size rrs tail cache v some_question room small =
    let r = record x { questions = w.questions; answers = rrs } in
    let u : Upstream = record {
      ans = unpasted k (record x { answers = [] });
      external_dns_flag = false;
      query = message_of w;
      cache = cache;
    } in
    rw (answer_locally-message_of k x rrs tail cache v.ancount, finish, ◌>>=◌)
      (rw
        (
          paste_questions-message_of k (record x { answers = rrs }) w v.questions some_question,
          ◌>>=◌,
        )
        (rw (respond-encode sendbuf ans_size u r v room small, ◌>>=◌) refl))

pub conclude-local_response :
    (fuel now : ℕ) (net : Network) (sendbuf : List ℕ) (ans_size : ℕ) (w : WireMessage)
    (rrs tail : List ResourceRecord) (cache : Cache)
    → IsMessage w
    → 0 < length w.questions
    → All IsRecord rrs
    → length rrs < 2 ^ 16
    → length (encode (local_response w rrs)) ≤ length sendbuf
    → length sendbuf < 2 ^ 32
    → conclude fuel now net sendbuf ans_size (message_of w) (local_lookup rrs tail cache)
      ≡ some (some (sent_as (local_response w rrs) sendbuf (message_of w) cache))
unfolding conclude ask_upstream setup_answer
conclude-local_response fuel now net sendbuf ans_size w rrs tail cache v some_question h few room
      small =
    finish-message_of 0 (local_response w rrs) w sendbuf ans_size rrs tail cache
      (local_response-IsMessage w rrs v h few) some_question room small
