-- ===== src/Main.antt =====
-- src/main.c: what the process sets up before its threads take over.
use baka_dns.Base.{ℕ, Option, none, some, List, ◌==◌, if◌then◌else◌, ◌>>=◌}
use baka_dns.Message.{ret, minus_one}
use baka_dns.Trees.{TreeNode}
use baka_dns.Conf.{InetPton, DnsConfig, zero_config, default_relay_file, or_default, parse_cmd}
use baka_dns.Database.Load.{init_database}
use baka_dns.Cache.{Cache, init_cache}
use baka_dns.Threadpool.Workers.{Pool, init_threadpool}
use baka_dns.Server.{Handlers}
use baka_dns.Server.Start.{
  ServerJob, ResponderArgs, SocketCalls, SslContext, start_udp_server, start_tls_server,
}

-- The global variables after `init_storage`, or `exit(EXIT_FAILURE)`.
pub data Storage : Type 0 where
  initialized : DnsConfig → TreeNode → Cache → Pool ServerJob → Storage
  storage_exit : Storage

-- `init_storage`, with the lines of each file that can be opened and the time. The threads of the
-- pool are taken to be created. The inner `none` is `pthread_exit`.
unfoldable pub init_storage :
    InetPton
    → (List ℕ → Option (List (List ℕ)))
    → ℕ
    → List (ℕ × Option (List ℕ))
    → Option (Option Storage)
init_storage pton files now calls =
    let parsed = parse_cmd pton calls zero_config in
    elim parsed.0 [
      | minus_one ↦ some (some storage_exit)
      | ret _ ↦
          let path = or_default parsed.1.relay_file_path default_relay_file in
          init_database pton (files path) >>= elim [
            | none ↦ some none
            | some loaded ↦ elim loaded.0 [
              | minus_one ↦ some (some storage_exit)
              | ret _ ↦ some (some (initialized parsed.1 loaded.1 (init_cache now) init_threadpool))
            ]
          ]
    ]

-- The responders that `main` starts behind `init_storage`; `none` stands for an exit with failure.
unfoldable pub start_servers :
    DnsConfig
    → SocketCalls
    → SocketCalls
    → SslContext
    → Handlers
    → Option (ResponderArgs × Option ResponderArgs)
start_servers conf udp_calls tls_calls ssl handlers =
    (start_udp_server udp_calls handlers).1 >>= λ udp.
    if conf.dot_enable == 0
    then some (udp, none)
    else (start_tls_server ssl tls_calls handlers >>= λ started.
        started.1 >>= λ tls. some (udp, some tls))
