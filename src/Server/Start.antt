-- ===== src/Server/Start.antt =====
-- The responders of src/socket/server.c and how they are started.
use baka_dns.Base.{
  ℕ, ◌-◌, ◌^◌, Bool, true, false, Option, none, some, List, length, take, ◌++◌, zeroed,
}
use baka_dns.Message.{IntRet, ret, minus_one}
use baka_dns.Threadpool.{JobQueue, PushStatus, threadpool_add_job}
use baka_dns.Server.{Handlers, ResolvArgs, create_resolv_args, udp_buffer_size}

-- `struct job`: one of the two functions, with its argument.
pub data ServerJob : Type 0 where
  udp_job ssl_job : ResolvArgs → ServerJob

-- `struct responder_args`; `ctx` is left out.
pub record ResponderArgs : Type 0 where
  pub fd : ℕ
  pub handlers : Handlers

unfoldable pub create_responder_args : ℕ → Handlers → ResponderArgs
create_responder_args fd handlers = record { fd = fd; handlers = handlers }

-- What `recvfrom` gives: an error, or the sender and the bytes of a datagram.
pub data Received : Type 0 where
  receive_failed : Received
  datagram_from : List ℕ → List ℕ → Received

-- The cleared buffer with the bytes that fit it, and `nrecv` as a `uint32_t`.
unfoldable pub received_buffer : List ℕ → List ℕ
received_buffer bytes =
    let kept = take udp_buffer_size bytes in kept ++ zeroed (udp_buffer_size - length kept)

-- One round of `udp_responder` in which the socket is ready.
unfoldable pub udp_responder :
    ResponderArgs → Received → JobQueue ServerJob → PushStatus × JobQueue ServerJob
udp_responder la receive_failed q = threadpool_add_job q (
    udp_job (
      create_resolv_args (some (zeroed 16)) (some (zeroed udp_buffer_size)) (2 ^ 32 - 1) la.handlers
        0))
udp_responder la (datagram_from cliaddr bytes) q = threadpool_add_job q (
    udp_job (
      create_resolv_args (some cliaddr) (some (received_buffer bytes))
        (length (take udp_buffer_size bytes)) la.handlers 0))

-- One round of `tls_responder`, by what `accept` gives; after an error there is no job.
unfoldable pub tls_responder :
    ResponderArgs
    → Option (ℕ × List ℕ)
    → JobQueue ServerJob
    → Option (PushStatus × JobQueue ServerJob)
tls_responder la none q = none
tls_responder la (some (clientfd, addr)) q =
    some
      (threadpool_add_job q (ssl_job (create_resolv_args (some addr) none 0 la.handlers clientfd)))

pub data Protocol : Type 0 where
  sock_dgram sock_stream : Protocol

-- What `socket`, `bind` and `listen` give.
pub record SocketCalls : Type 0 where
  pub created : Option ℕ
  pub bound : Bool
  pub listening : Bool

-- `create_socket`: the file descriptor, or -1.
unfoldable pub create_socket : SocketCalls → Protocol → IntRet
create_socket calls protocol = elim calls.created [
  | none ↦ minus_one
  | some sockfd ↦ elim calls.bound [
    | false ↦ minus_one
    | true ↦ elim protocol [
      | sock_dgram ↦ ret sockfd
      | sock_stream ↦ elim calls.listening [ false ↦ minus_one | true ↦ ret sockfd ]
    ]
  ]
]

-- The result, and the argument of the responder that is started in a new thread.
unfoldable pub start_udp_server : SocketCalls → Handlers → IntRet × Option ResponderArgs
start_udp_server calls handlers = elim (create_socket calls sock_dgram) [
  | minus_one ↦ (minus_one, none)
  | ret udp_fd ↦ (ret 1, some (create_responder_args udp_fd handlers))
]

-- What the calls of `create_context` and `configure_context` give.
pub record SslContext : Type 0 where
  pub context_made : Bool
  pub certificate_used : Bool
  pub private_key_used : Bool

-- `create_context` and `configure_context`: false stands for `exit(EXIT_FAILURE)`.
unfoldable pub create_context : SslContext → Bool
create_context ssl = ssl.context_made

unfoldable pub configure_context : SslContext → Bool
configure_context ssl = elim ssl.certificate_used [ false ↦ false | true ↦ ssl.private_key_used ]

-- The outer `none` is the exit of the process.
unfoldable pub start_tls_server :
    SslContext → SocketCalls → Handlers → Option (IntRet × Option ResponderArgs)
start_tls_server ssl calls handlers = elim (create_context ssl) [
  | false ↦ none
  | true ↦ elim (configure_context ssl) [
    | false ↦ none
    | true ↦ elim (create_socket calls sock_stream) [
      | minus_one ↦ some (minus_one, none)
      | ret tls_fd ↦ some (ret 1, some (create_responder_args tls_fd handlers))
    ]
  ]
]
