-- ===== src/Client/Reply.antt =====
-- `send_question` of src/socket/client.c by what the upstream server replies.
use baka_dns.Base.{
  ℕ, ◌+◌, ◌-◌, ◌%◌, ◌^◌, ◌≤◌, ◌<◌, ◌≡◌, refl, true, Option, none, some, List, [], ◌∷◌, ◌++◌, ◌==◌,
  if◌then◌else◌, ◌>>=◌, length, take_all, drop, zeroed, length-zeroed, read_bytes-drop, All, arith,
  Bool-cases, inl, inr, le→leb, lt→ltb,
}
use baka_dns.Message.{MessageHeader, ResourceRecord, Message, IntRet, ret, minus_one, rrtype_opt}
use baka_dns.Message.Record.{free_heap_message}
use baka_dns.Message.Record.Free.{free_heap_message-message_of}
use baka_dns.Message.Parse.{message_from_buf}
use baka_dns.Message.Wire.{
  WireMessage, header_of, IsMessage, IsRecord, IsData, opaque_data, name_data, mx_data, message_of,
  encode,
}
use baka_dns.Message.Wire.Write.{message_to_u8-encode}
use baka_dns.Message.Wire.RoundTrip.{blank, message_from_buf-blank}
use baka_dns.Client.{
  client_buffer_size, Network, returns, receive, exchange_question, send_question,
}
use baka_dns.Client.Edns.{opt_record, with_edns, add_edns-with_edns}

-- What the upstream server replies within the time: nothing, less than a header, or a message.
pub data Reply : Type 0 where
  silence : Reply
  runt : List ℕ → Reply
  answer : WireMessage → Reply

abbrev pub datagram : Reply → Option (List ℕ)
datagram silence = none
datagram (runt bytes) = some bytes
datagram (answer a) = some (encode a)

-- The message fits the buffer of the client.
abbrev pub IsReply : Reply → Type 0
IsReply silence = Unit
IsReply (runt bytes) = length bytes < 12
IsReply (answer a) = IsMessage a × (length (encode a) ≤ client_buffer_size)

-- The request on the wire: with the id `new_id` and the EDNS record.
abbrev pub asked : ℕ → WireMessage → WireMessage
asked new_id w = record w { id = new_id; additions = with_edns w.additions }

-- What `send_question` returns and leaves in `*respptr`, whose header was `h`.
unfoldable pub outcome : ℕ → ℕ → MessageHeader → Reply → IntRet × Message
outcome old_id new_id h silence = (minus_one, blank h)
outcome old_id new_id h (runt bytes) = (minus_one, blank h)
outcome old_id new_id h (answer a) =
    if a.id == new_id
    then (ret 1, message_of (record a { id = old_id }))
    else (minus_one, blank (header_of a))

opt_record-IsRecord : IsRecord opt_record
opt_record-IsRecord = record {
  name = record { labels = []; terminated = refl; plain = tt; short = omega arith };
  type = omega arith;
  class = omega arith;
  ttl = omega arith;
  rdlength = omega arith;
  holds = refl;
  rdata = opaque_data refl refl refl (omega arith);
}

with_ttl : (rr : ResourceRecord) (ttl : ℕ) → IsData rr → IsData (record rr { ttl = ttl })
with_ttl rr ttl (opaque_data a b c d) = opaque_data a b c d
with_ttl rr ttl (name_data a b) = name_data a b
with_ttl rr ttl (mx_data high low exchange a b c) = mx_data high low exchange a b c

with_edns-IsRecord : (rrs : List ResourceRecord) → All IsRecord rrs → All IsRecord (with_edns rrs)
unfolding with_edns
with_edns-IsRecord [] h = (opt_record-IsRecord, tt)
with_edns-IsRecord (rr ∷ rrs) h = elim (Bool-cases (rr.type == rrtype_opt)) [
  | inl t ↦ rw t (
    record {
      name = h.0.name;
      type = h.0.type;
      class = h.0.class;
      ttl = omega arith;
      rdlength = h.0.rdlength;
      holds = h.0.holds;
      rdata = with_ttl rr client_buffer_size h.0.rdata;
    },
    h.1,
  )
  | inr f ↦ rw f (h.0, with_edns-IsRecord rrs h.1)
]

length-with_edns : (rrs : List ResourceRecord) → length (with_edns rrs) ≤ length rrs + 1
unfolding with_edns
length-with_edns [] = omega arith
length-with_edns (rr ∷ rrs) = elim (Bool-cases (rr.type == rrtype_opt)) [
  | inl t ↦ rw t (omega arith)
  | inr f ↦ rw f (omega (arith, length-with_edns rrs))
]

asked-IsMessage :
    (new_id : ℕ) (w : WireMessage)
    → new_id < 2 ^ 16
    → IsMessage w
    → length w.additions + 1 < 2 ^ 16
    → IsMessage (asked new_id w)
asked-IsMessage new_id w h v small = record {
  id = h;
  whole = v.whole;
  qdcount = v.qdcount;
  ancount = v.ancount;
  nscount = v.nscount;
  arcount = omega (arith, length-with_edns w.additions);
  questions = v.questions;
  answers = v.answers;
  authorities = v.authorities;
  additions = with_edns-IsRecord w.additions v.additions;
}

pub message_from_buf_runt :
    (fuel : ℕ) (buf : List ℕ) (size : ℕ) (msg : Message)
    → size < 12
    → message_from_buf fuel buf size msg ≡ some (minus_one, msg)
unfolding message_from_buf
message_from_buf_runt fuel buf size msg h = rw (lt→ltb size 12 h) refl

free_heap_message-blank :
    (a : WireMessage) → free_heap_message (message_of a) ≡ some (blank (header_of a))
free_heap_message-blank a = free_heap_message-message_of a

module _ (fuel : ℕ) (net : Network) (new_id : ℕ) (sent : List ℕ) (req : Message) (h : MessageHeader)
    (enough : 255 ≤ fuel) where
  receive-outcome :
      (r : Reply)
      → IsReply r
      → net.exchange sent ≡ datagram r
      → receive fuel net new_id sent req (blank h)
        ≡ some
            (returns (outcome req.header.id new_id h r).0 req (outcome req.header.id new_id h r).1)
  unfolding receive outcome
  receive-outcome silence v e = rw (e, receive) refl
  receive-outcome (runt bytes) v e =
      let whole = take_all client_buffer_size bytes (omega arith) in
      rw (e, receive)
        (rw
          (
            whole,
            message_from_buf_runt fuel (bytes ++ zeroed (client_buffer_size - length bytes))
                (length bytes) (blank h) v,
            ◌>>=◌,
          )
          refl)
  receive-outcome (answer a) v e =
      let whole = take_all client_buffer_size (encode a) v.1 in
      rw (e, receive)
        (rw
          (
            whole,
            message_from_buf-blank fuel a (zeroed (client_buffer_size - length (encode a)))
                (length (encode a)) h v.0 enough (omega arith),
            ◌>>=◌,
          )
          (elim (Bool-cases (a.id == new_id)) [
            | inl t ↦ rw t refl
            | inr f ↦ rw f (rw (free_heap_message-blank a, ◌>>=◌) refl)
          ]))

-- `send_question` on a complete request, with a socket and into a message with NULL arrays: it sends
-- the wire format of the request with the random number as the id and with the EDNS record, and
-- gives the request its own id back. A message in reply whose id is the random number is accepted,
-- with the id of the request; any other is refused with -1, but `*respptr` keeps its header. With no
-- reply, or less than a header, the result is -1 and `*respptr` is unchanged.
pub send_question-outcome :
    (fuel : ℕ) (net : Network) (w : WireMessage) (h : MessageHeader) (r : Reply)
    → 255 ≤ fuel
    → net.socket_created ≡ true
    → net.timeout_set ≡ true
    → IsMessage w
    → length w.additions + 1 < 2 ^ 16
    → length (encode (asked (net.rand % 2 ^ 16) w)) ≤ client_buffer_size
    → IsReply r
    → net.exchange (encode (asked (net.rand % 2 ^ 16) w)) ≡ datagram r
    → send_question fuel net (message_of w) (blank h)
      ≡ some (
          returns
            (outcome w.id (net.rand % 2 ^ 16) h r).0
            (message_of (asked w.id w))
            (outcome w.id (net.rand % 2 ^ 16) h r).1)
unfolding send_question exchange_question
send_question-outcome fuel net w h r enough created set v small room k e =
    let new_id = net.rand % 2 ^ 16 in
    let q = asked new_id w in
    let bytes = encode q in
    let valid = asked-IsMessage new_id w (omega arith) v small in
    let edns = add_edns-with_edns (record w { id = new_id }) small in
    let wrote = message_to_u8-encode q (zeroed client_buffer_size) valid (omega arith) in
    let fits =
      le→leb (length bytes) (length (zeroed client_buffer_size))
        (omega (arith, length-zeroed client_buffer_size)) in
    let rest = drop (length bytes) (zeroed client_buffer_size) in
    rw (created, send_question)
      (rw (set) (
        rw (edns, exchange_question, ◌>>=◌)
          (rw (wrote, fits, ◌>>=◌)
            (rw (read_bytes-drop (bytes ++ rest) 0 bytes rest refl, ◌>>=◌)
              (receive-outcome fuel net new_id bytes (message_of (asked w.id w)) h enough r k e)))))
