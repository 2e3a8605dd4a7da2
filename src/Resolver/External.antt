-- ===== src/Resolver/External.antt =====
-- Requests that `resolv_handle` of src/socket/resolv.c passes on to the upstream server.
use baka_dns.Base.{
  ℕ, ◌+◌, ◌%◌, ◌^◌, ◌≤◌, ◌<◌, ◌≡◌, ◌≢◌, refl, ap, ◌∙◌, true, false, some, List, [], length, ◌>>=◌,
  ==_ne, ==_refl,
}
use baka_dns.Message.{MessageHeader, Message, IntRet, ret, minus_one}
use baka_dns.Message.Flags.{create_misc1, create_misc2}
use baka_dns.Message.Record.{free_heap_message}
use baka_dns.Message.Record.Free.{free_heap_message-message_of}
use baka_dns.Message.Wire.{WireMessage, header_of, IsMessage, message_of, encode}
use baka_dns.Message.Wire.RoundTrip.{blank}
use baka_dns.Cache.{Cache}
use baka_dns.Client.{client_buffer_size, Network, returns, send_question}
use baka_dns.Client.Reply.{
  Reply, silence, runt, answer, datagram, IsReply, asked, outcome, send_question-outcome,
}
use baka_dns.Resolver.{Lookup, put_all, setup_answer}
use baka_dns.Resolver.Handle.{ask_upstream, finish, answer_locally, answer_failure, paste_questions}
use baka_dns.Resolver.Respond.{
  local_response, unpasted, sent_as, read_elements-array_of, respond-encode,
}
use baka_dns.Resolver.Blocked.{start}

-- The upstream server is reachable, and what it replies to the request that the client sends.
pub record IsExchange (net : Network) (w : WireMessage) (reply : Reply) : Type 0 where
  pub created : net.socket_created ≡ true
  pub timeout : net.timeout_set ≡ true
  pub small : length w.additions + 1 < 2 ^ 16
  pub fits : length (encode (asked (net.rand % 2 ^ 16) w)) ≤ client_buffer_size
  pub valid : IsReply reply
  pub replied : net.exchange (encode (asked (net.rand % 2 ^ 16) w)) ≡ datagram reply

-- The reply is no message with the id that was sent.
pub data Refused (new_id : ℕ) : Reply → Type 0 where
  refused_silence : Refused new_id silence
  refused_runt : (bytes : List ℕ) → Refused new_id (runt bytes)
  refused_answer : (a : WireMessage) → a.id ≢ new_id → Refused new_id (answer a)

-- The response when the reply is refused.
abbrev pub refused_response : WireMessage → Reply → WireMessage
refused_response w silence = local_response w []
refused_response w (runt bytes) = local_response w []
refused_response w (answer a) = record (local_response w []) {
  id = a.id;
  misc1 = a.misc1;
  misc2 = a.misc2;
}

-- The number of questions that its header has before they are pasted.
abbrev pub refused_count : Reply → ℕ
refused_count silence = 0
refused_count (runt bytes) = 0
refused_count (answer a) = length a.questions

-- The header of `ans` as it is set up.
answer_header : ℕ → MessageHeader
answer_header id = header_of (record {
  id = id;
  misc1 = create_misc1 1 0 1 0 0;
  misc2 = create_misc2 0 0 0;
  questions = [];
  answers = [];
  authorities = [];
  additions = [];
})

setup_answer-blank :
    (id : ℕ) → free_heap_message (setup_answer id) ≡ some (blank (answer_header id))
unfolding setup_answer answer_header
setup_answer-blank id = free_heap_message-message_of (record {
  id = id;
  misc1 = create_misc1 1 0 1 0 0;
  misc2 = create_misc2 0 0 0;
  questions = [];
  answers = [];
  authorities = [];
  additions = [];
})

outcome-accepted :
    (old_id new_id : ℕ) (h : MessageHeader) (a : WireMessage)
    → a.id ≡ new_id
    → outcome old_id new_id h (answer a) ≡ (ret 1, message_of (record a { id = old_id }))
unfolding outcome
outcome-accepted old_id new_id h a e = rw (e, ==_refl new_id) refl

outcome-refused :
    (old_id new_id : ℕ) (h : MessageHeader) (a : WireMessage)
    → a.id ≢ new_id
    → outcome old_id new_id h (answer a) ≡ (minus_one, blank (header_of a))
unfolding outcome
outcome-refused old_id new_id h a differ = rw (==_ne a.id new_id differ) refl

-- The state of the search that needs the upstream server.
abbrev pub external_lookup : Cache → Lookup
external_lookup c = record (start c) { external_dns_flag = true }

module _ (fuel now : ℕ) (net : Network) (sendbuf : List ℕ) (ans_size : ℕ) (w : WireMessage)
    (v : IsMessage w) (some_question : 0 < length w.questions) (c : Cache)
    (enough : 255 ≤ fuel) where
  send_question_sent :
      (reply : Reply)
      → IsExchange net w reply
      → send_question fuel net (message_of w) (blank (answer_header w.id))
        ≡ some (
            returns
              (outcome w.id (net.rand % 2 ^ 16) (answer_header w.id) reply).0
              (message_of (asked w.id w))
              (outcome w.id (net.rand % 2 ^ 16) (answer_header w.id) reply).1)
  send_question_sent reply x =
      send_question-outcome fuel net w (answer_header w.id) reply enough x.created x.timeout v
        x.small x.fits x.valid x.replied

  -- What `send_question` leaves, for a known result and response.
  send_question_as :
      (reply : Reply) (result : IntRet × Message)
      → IsExchange net w reply
      → outcome w.id (net.rand % 2 ^ 16) (answer_header w.id) reply ≡ result
      → send_question fuel net (message_of w) (blank (answer_header w.id))
        ≡ some (returns result.0 (message_of (asked w.id w)) result.1)
  send_question_as reply result x e =
      send_question_sent reply x
      ∙ ap (λ (o : IntRet × Message). some (returns o.0 (message_of (asked w.id w)) o.1)) e

  pub ask_upstream-relayed :
      (a : WireMessage) (c' : Cache)
      → IsExchange net w (answer a)
      → a.id ≡ net.rand % 2 ^ 16
      → put_all fuel now c a.answers ≡ some c'
      → ask_upstream fuel now net (external_lookup c) (message_of w) (setup_answer w.id)
        ≡ some (
            some (record {
              ans = message_of (record a { id = w.id });
              external_dns_flag = true;
              query = message_of (asked w.id w);
              cache = c';
            }))
  unfolding ask_upstream outcome
  ask_upstream-relayed a c' x same put =
      let sent =
        send_question_as (answer a) _ x (outcome-accepted w.id _ (answer_header w.id) a same) in
      rw (setup_answer-blank w.id, ◌>>=◌)
        (rw (sent, ◌>>=◌) (rw (read_elements-array_of a.answers, ◌>>=◌) (rw (put, ◌>>=◌) refl)))

  pub ask_upstream-Refused :
      (reply : Reply)
      → IsExchange net w reply
      → Refused (net.rand % 2 ^ 16) reply
      → ask_upstream fuel now net (external_lookup c) (message_of w) (setup_answer w.id)
        ≡ some (
            some (record {
              ans = unpasted (refused_count reply) (refused_response w reply);
              external_dns_flag = false;
              query = message_of (asked w.id w);
              cache = c;
            }))
  unfolding ask_upstream outcome answer_header
  ask_upstream-Refused silence x refused_silence =
      let sent = send_question_sent silence x in
      rw (setup_answer-blank w.id, ◌>>=◌) (rw (sent, ◌>>=◌) refl)
  ask_upstream-Refused (runt bytes) x (refused_runt _) =
      let sent = send_question_sent (runt bytes) x in
      rw (setup_answer-blank w.id, ◌>>=◌) (rw (sent, ◌>>=◌) refl)
  ask_upstream-Refused (answer a) x (refused_answer _ differ) =
      let sent =
        send_question_as (answer a) _ x (outcome-refused w.id _ (answer_header w.id) a differ) in
      rw (setup_answer-blank w.id, ◌>>=◌) (rw (sent, ◌>>=◌) refl)

  pub finish-relayed :
      (a : WireMessage) (c' : Cache)
      → IsMessage (record a { id = w.id })
      → length (encode (record a { id = w.id })) ≤ length sendbuf
      → length sendbuf < 2 ^ 32
      → finish sendbuf ans_size (external_lookup c) (record {
        ans = message_of (record a { id = w.id });
        external_dns_flag = true;
        query = message_of (asked w.id w);
        cache = c';
      })
        ≡ some (some (sent_as (record a { id = w.id }) sendbuf (message_of (asked w.id w)) c'))
  unfolding finish answer_locally answer_failure paste_questions
  finish-relayed a c' va room small =
      rw
        (
          respond-encode sendbuf ans_size
              (record {
                ans = message_of (record a { id = w.id });
                external_dns_flag = true;
                query = message_of (asked w.id w);
                cache = c';
              })
              (record a { id = w.id }) va room small,
          finish,
          ◌>>=◌,
        )
        refl
