-- ===== src/Client.antt =====
-- src/socket/client.c: `send_question` asks the upstream server. The sockets, the clock and `rand` are
-- the record `Network`.
pub mod Edns
pub mod Reply
use mathlib.Core.Option
use baka_dns.Base.{
  ℕ, zero, suc, ◌+◌, ◌-◌, ◌%◌, ◌^◌, Bool, true, false, Option, none, some, List, [], ◌∷◌, ◌++◌,
  ◌==◌, if◌then◌else◌, ◌>>=◌, length, set, take, zeroed, read_bytes,
}
use baka_dns.Message.{ResourceRecord, Message, PtrArray, IntRet, ret, minus_one, rrtype_opt}
use baka_dns.Message.Record.{create_resource_record, free_heap_message}
use baka_dns.Message.Parse.{message_from_buf}
use baka_dns.Message.Print.{message_to_u8}

abbrev pub client_buffer_size : ℕ
client_buffer_size = 4096

-- What the calls of the system give during one `send_question`: whether `socket` and `setsockopt`
-- succeed, the number that `rand` returns, and the datagram that `recvfrom` receives after `sendto`
-- has sent one, or nothing when it times out.
pub record Network : Type 0 where
  pub socket_created : Bool
  pub timeout_set : Bool
  pub rand : ℕ
  pub exchange : List ℕ → Option (List ℕ)

-- How the call ends: it returns, with `*reqptr` and `*respptr` as it leaves them, or `pthread_exit`.
pub data Sent : Type 0 where
  returns : IntRet → Message → Message → Sent
  thread_exit : Sent

-- `msg->header.id = id`
abbrev pub set_id : ℕ → Message → Message
set_id id msg = record msg { header = record msg.header { id = id } }

-- NULL has no element that can be read.
abbrev pub elements_of : {A : Type 0} → PtrArray A → List (Option A)
elements_of none = []
elements_of (some elements) = elements

-- The loop that looks for an OPT record among the `arcount` elements, from the index `i` on.
unfoldable pub find_opt :
    ℕ → ℕ → List (Option ResourceRecord) → Option (Option (ℕ × ResourceRecord))
find_opt zero i elements = some none
find_opt (suc n) i [] = none
find_opt (suc n) i (none ∷ elements) = none
find_opt (suc n) i (some rr ∷ elements) = elim (rr.type == rrtype_opt) [
  | true ↦ some (some (i, rr))
  | false ↦ find_opt n (i + 1) elements
]

-- The branch `if (!rr_opt)`: a larger array with the old pointers and a new OPT record. A count that
-- wraps around to 0 makes the loop run past the array. The inner `none` is `pthread_exit`.
unfoldable pub append_opt : Message → Option (Option Message)
append_opt req = elim ((req.header.arcount + 1) % 2 ^ 16) [
  | zero ↦ none
  | suc n ↦ do
    let zeros = 0 ∷ 0 ∷ 0 ∷ 0 ∷ []
    made ← create_resource_record zeros rrtype_opt client_buffer_size 0 0 zeros
    some (
        made >>= λ rr. some (record req {
          header = record req.header { arcount = suc n };
          addition = some (take n (elements_of req.addition) ++ (some rr ∷ []));
        }))
]

-- The part below `edns support`.
unfoldable pub add_edns : Message → Option (Option Message)
add_edns req = find_opt req.header.arcount 0 (elements_of req.addition) >>= elim [
  | none ↦ append_opt req
  | some found ↦
      let rr = record found.1 { ttl = client_buffer_size } in
      some
        (some (record req { addition = some (set (elements_of req.addition) found.0 (some rr)) }))
]

-- `recvfrom` into the cleared buffer, and what follows; `req` has its old id again.
unfoldable pub receive : ℕ → Network → ℕ → List ℕ → Message → Message → Option Sent
receive fuel net new_id sent req resp = elim (net.exchange sent) [
  | none ↦ some (returns minus_one req resp)
  | some reply ↦ do
    let data_read = take client_buffer_size reply
    let n = length data_read
    (result, resp1) ← message_from_buf fuel (data_read ++ zeroed (client_buffer_size - n)) n resp
    elim result [
      | minus_one ↦ some (returns minus_one req resp1)
      | ret _ ↦ elim (resp1.header.id == new_id) [
        | false ↦ do resp2 ← free_heap_message resp1; some (returns minus_one req resp2)
        | true ↦ some (returns (ret 1) req (set_id req.header.id resp1))
      ]
    ]
]

-- What follows `setsockopt`. The fuel is for reading the reply.
unfoldable pub exchange_question : ℕ → Network → Message → Message → Option Sent
exchange_question fuel net req resp =
    let new_id = net.rand % 2 ^ 16 in
    add_edns (set_id new_id req) >>= elim [
      | none ↦ some thread_exit
      | some req1 ↦ do
        (buffer, size) ← message_to_u8 req1 (zeroed client_buffer_size)
        elim size [
          | minus_one ↦ some (returns minus_one req1 resp)
          | ret n ↦ do
            sent ← read_bytes buffer 0 n
            receive fuel net new_id sent (set_id req.header.id req1) resp
        ]
    ]

unfoldable pub send_question : ℕ → Network → Message → Message → Option Sent
send_question fuel net req resp = elim net.socket_created [
  | false ↦ some thread_exit
  | true ↦ elim net.timeout_set [
    | false ↦ some (returns minus_one req resp)
    | true ↦ exchange_question fuel net req resp
  ]
]
