-- ===== src/Server.antt =====
-- src/socket/server.c: the jobs that answer one request over UDP or TLS, and the two responders that
-- create them. The sockets and OpenSSL are records of what their calls give.
pub mod Start
pub mod Udp
pub mod Tls
pub mod Inserted
use mathlib.Core.Option
use baka_dns.Base.{
  ℕ, zero, suc, ◌+◌, ◌-◌, ◌*◌, ◌%◌, ◌^◌, Bool, true, false, Option, none, some, List, [], ◌∷◌, ◌==◌,
  if◌then◌else◌, ◌>>=◌, length, take, drop, ◌++◌, zeroed, read_bytes, write_bytes,
}
use baka_dns.Message.{Message, IntRet, ret, minus_one}
use baka_dns.Message.Word.{htons_bytes}
use baka_dns.Message.Record.{construct_error_response, free_heap_message}
use baka_dns.Message.Parse.{message_from_buf}
use baka_dns.Message.Print.{message_to_u8}
use baka_dns.Message.Wire.RoundTrip.{empty_message}
use baka_dns.Trees.{TreeNode}
use baka_dns.Cache.{Cache}
use baka_dns.Client.{Network}
use baka_dns.Threadpool.{JobQueue, PushStatus, threadpool_add_job}
use baka_dns.Resolver.{rcode_format_error}
use baka_dns.Resolver.Handle.{Handled, resolv_handle}

abbrev pub udp_buffer_size : ℕ
udp_buffer_size = 4096

abbrev pub tls_buffer_size : ℕ
tls_buffer_size = 5120

-- The two function pointers: `recv_handle` on a buffer, a size and `*msg`, and `resolv_handle` on the
-- cache, `sendbuf`, `*ans_size` and `*query`.
pub record Handlers : Type 0 where
  pub recv_handle : List ℕ → ℕ → Message → Option (IntRet × Message)
  pub resolv_handle : Cache → List ℕ → ℕ → Message → Option (Option Handled)

-- `dns_recv_handle`; the fuel is for reading names.
unfoldable pub dns_recv_handle : ℕ → List ℕ → ℕ → Message → Option (IntRet × Message)
dns_recv_handle fuel buf size msg = message_from_buf fuel buf size msg

-- The functions that `start_udp_server` and `start_tls_server` pass on.
abbrev pub dns_handlers : ℕ → ℕ → Network → TreeNode → Handlers
dns_handlers fuel now net tree = record {
  recv_handle = dns_recv_handle fuel;
  resolv_handle = resolv_handle fuel now net tree;
}

-- `struct resolv_args`. What is not passed is left out of the allocated block.
pub record ResolvArgs : Type 0 where
  pub cliaddr : Option (List ℕ)
  pub rcvbuffer : Option (List ℕ)
  pub nrecv : ℕ
  pub handlers : Handlers
  pub clientfd : ℕ

-- `create_resolv_args`; both responders pass an address.
unfoldable pub create_resolv_args :
    Option (List ℕ) → Option (List ℕ) → ℕ → Handlers → ℕ → ResolvArgs
create_resolv_args cliaddr rcvbuffer nrecv handlers clientfd = record {
  cliaddr = cliaddr;
  rcvbuffer = rcvbuffer;
  nrecv = nrecv;
  handlers = handlers;
  clientfd = clientfd;
}

-- How a job ends: its result, the bytes given to `sendto` or `SSL_write`, and the cache; or the
-- thread ends within it.
pub data Responded : Type 0 where
  responded : IntRet → Option (List ℕ) → Cache → Responded
  thread_ended : Responded

-- `x < -1`, which holds of no result.
abbrev pub below_minus_one : IntRet → Bool
below_minus_one (ret n) = false
below_minus_one minus_one = false

-- The number of bytes that a failed call stores in a `uint32_t`.
abbrev pub size_of_int : IntRet → ℕ
size_of_int (ret n) = n
size_of_int minus_one = 2 ^ 32 - 1

-- What follows `resolv_handle` in `udp_resolv_and_respond`.
unfoldable pub udp_respond : Handled → Option Responded
udp_respond h = elim h.result [
  | minus_one ↦ do _ ← free_heap_message h.query; some (responded minus_one none h.cache)
  | ret _ ↦ do
    sent ← read_bytes h.sendbuf 0 h.ans_size
    _ ← free_heap_message h.query
    some (responded (ret 1) (some sent) h.cache)
]

-- `rcvbuffer` that was not copied cannot be read.
unfoldable pub udp_resolv_and_respond : ResolvArgs → Cache → Option Responded
udp_resolv_and_respond args cache = do
  let sendbuf = zeroed udp_buffer_size
  rcvbuffer ← args.rcvbuffer
  (received, msgrcv) ← args.handlers.recv_handle rcvbuffer args.nrecv empty_message
  elim (below_minus_one received) [
    | true ↦ do
      (buf, nsend) ← message_to_u8 (construct_error_response rcode_format_error) sendbuf
      sent ← read_bytes buf 0 (size_of_int nsend)
      _ ← free_heap_message msgrcv
      some (responded minus_one (some sent) cache)
    | false ↦
        args.handlers.resolv_handle cache sendbuf 0 msgrcv
        >>= elim [ none ↦ some thread_ended | some h ↦ udp_respond h ]
  ]

-- What OpenSSL gives during one session: whether `SSL_accept` succeeds, the bytes or the error of
-- each `SSL_read`, and whether `SSL_write` succeeds.
pub record Session : Type 0 where
  pub accepted : Bool
  pub reads : List (Option (List ℕ))
  pub write_done : Bool

-- The loop over `SSL_read`: `recvbuf`, `nrecv`, and whether the last read failed. Each read may give
-- as many bytes as the whole buffer holds, and with no read left the loop waits for ever.
unfoldable pub read_loop : List (Option (List ℕ)) → List ℕ → ℕ → ℕ → Option (List ℕ × ℕ × Bool)
read_loop [] recvbuf nrecv expected =
    if nrecv == expected then some (recvbuf, nrecv, false) else none
read_loop (none ∷ reads) recvbuf nrecv expected =
    some (recvbuf, nrecv, if nrecv == expected then false else true)
read_loop (some bytes ∷ reads) recvbuf nrecv expected = elim (nrecv == expected) [
  | true ↦ some (recvbuf, nrecv, false)
  | false ↦ do
    recvbuf1 ← write_bytes recvbuf nrecv (take tls_buffer_size bytes)
    read_loop reads recvbuf1 (nrecv + length (take tls_buffer_size bytes)) expected
]

-- `*(uint16_t *)sendbuf = htons(nsend); SSL_write(ssl, sendbuf, nsend + 2)`: the bytes written.
unfoldable pub frame : List ℕ → ℕ → Option (List ℕ)
frame sendbuf nsend = do
  sendbuf1 ← write_bytes sendbuf 0 (htons_bytes nsend)
  read_bytes sendbuf1 0 (nsend + 2)

-- What follows `resolv_handle` in `ssl_resolv_and_respond`; it was called with `sendbuf + 2`, and
-- `size_bytes` are the two bytes before that.
unfoldable pub ssl_respond : Bool → List ℕ → Handled → Option Responded
ssl_respond write_done size_bytes h = elim h.result [
  | minus_one ↦ some (responded minus_one none h.cache)
  | ret _ ↦ do
    sent ← frame (size_bytes ++ h.sendbuf) h.ans_size
    elim write_done [
      | false ↦ some (responded minus_one (some sent) h.cache)
      | true ↦ do _ ← free_heap_message h.query; some (responded (ret 1) (some sent) h.cache)
    ]
]

-- The part behind the loop.
unfoldable pub ssl_request : Handlers → Bool → List ℕ → ℕ → Cache → Option Responded
ssl_request handlers write_done recvbuf nrecv cache = do
  let sendbuf = zeroed tls_buffer_size
  (received, msgrcv) ← handlers.recv_handle recvbuf nrecv empty_message
  elim received [
    | minus_one ↦ do
      (buf, nsend) ← message_to_u8 (construct_error_response rcode_format_error) sendbuf
      sent ← frame buf (size_of_int nsend)
      _ ← free_heap_message msgrcv
      some (responded minus_one (some sent) cache)
    | ret _ ↦
        handlers.resolv_handle cache (drop 2 sendbuf) 0 msgrcv
        >>= elim [ none ↦ some thread_ended | some h ↦ ssl_respond write_done (take 2 sendbuf) h ]
  ]

-- The two bytes of the expected size, as `ntohs` reads them.
unfoldable pub expected_size : List ℕ → Option ℕ
expected_size (high ∷ low ∷ []) = some (high * 2 ^ 8 + low)
expected_size bytes = none

-- The first read, and what follows it; a read of another length ends the job.
unfoldable pub ssl_receive : Handlers → Session → Cache → Option Responded
ssl_receive handlers session cache = elim session.reads [
  | [] ↦ none
  | first ∷ reads ↦ elim (first >>= λ bytes. expected_size (take 2 bytes)) [
    | none ↦ some (responded minus_one none cache)
    | some expected ↦ do
      (recvbuf, nrecv, failed) ← read_loop reads (zeroed tls_buffer_size) 0 expected
      elim failed [
        | true ↦ some (responded minus_one none cache)
        | false ↦ ssl_request handlers session.write_done recvbuf nrecv cache
      ]
  ]
]

unfoldable pub ssl_resolv_and_respond : ResolvArgs → Session → Cache → Option Responded
ssl_resolv_and_respond args session cache = elim session.accepted [
  | false ↦ some (responded minus_one none cache)
  | true ↦ ssl_receive args.handlers session cache
]
