-- ===== src/Tests/Server.antt =====
-- The jobs of src/socket/server.c on the sample request, and on packets that are not messages.
use baka_dns.Base.{
  ℕ, ◌^◌, ◌≤◌, ◌<◌, ◌≡◌, refl, some, none, List, [], ◌∷◌, ◌++◌, arith, length, length-zeroed,
  zeroed, drop, length-drop, flatten,
}
use baka_dns.Message.{ret, minus_one}
use baka_dns.Message.Flags.{qr_of, opcode_of, tc_of}
use baka_dns.Message.Word.{htons_bytes, htonl_bytes, u8n_to_u16h, u8n_to_u8h}
use baka_dns.Message.Parse.{msg_header_from_buf}
use baka_dns.Message.Wire.{
  WireMessage, message_of, encode, encode_header, encode_section, encode_question, encode_rr,
}
use baka_dns.Trees.{create_tree_node}
use baka_dns.Cache.{Cache, init_cache}
use baka_dns.Resolver.Handle.{resolv_handle}
use baka_dns.Resolver.Respond.{local_response, sent_as}
use baka_dns.Resolver.Local.{resolv_handle-cached}
use baka_dns.Server.{
  responded, dns_handlers, udp_buffer_size, tls_buffer_size, udp_resolv_and_respond,
  ssl_resolv_and_respond,
}
use baka_dns.Server.Udp.{
  packet_args, udp_resolv_and_respond-encode, udp_resolv_and_respond-truncated,
}
use baka_dns.Server.Tls.{
  session_of, connection_args, ssl_resolv_and_respond-encode, ssl_resolv_and_respond-runt,
}
use baka_dns.Trees.{TreeNode}
use baka_dns.Trees.Contents.{create_tree_node-IsTree}
use baka_dns.Database.{insert_database}
use baka_dns.Cache.Put.{init_cache-IsCache}
use baka_dns.Resolver.Blocked.{all_open}
use baka_dns.Server.Inserted.{IsMiss, udp_resolv_and_respond-insert_database}
use baka_dns.Tests.Sample.{
  nothing, index_of_address, name_of_question, domain, question, address, address-IsRecord, request,
  request-IsMessage, answering, put_address, entry,
}
use baka_dns.Tests.Resolver.{request-IsRequest, length-answered, found, missed, open_address}

abbrev client : List ℕ
client = 127 ∷ 0 ∷ 0 ∷ 1 ∷ []

abbrev response : WireMessage
response = local_response request (address ∷ [])

-- The run of `resolv_handle` on a buffer of some length.
handled_in :
    (sendbuf : List ℕ)
    → 42 ≤ length sendbuf
    → length sendbuf < 2 ^ 32
    → (c' : Cache) × (resolv_handle 255 1030
          (answering 99)
          create_tree_node
          put_address.0
          sendbuf
          0
          (message_of request)
        ≡ some (some (sent_as response sendbuf (message_of request) c')))
handled_in sendbuf room small =
    let (c', handles, after) =
      resolv_handle-cached 255 1030 (answering 99) create_tree_node put_address.0 sendbuf 0 request
        question domain request-IsRequest (entry ∷ []) put_address.2 (address-IsRecord, tt) address
        [] found (omega arith) (omega arith) (omega (arith, length-answered)) small in
    (c', handles)

udp_handled :
    (c' : Cache) × (resolv_handle 255 1030
        (answering 99)
        create_tree_node
        put_address.0
        (zeroed udp_buffer_size)
        0
        (message_of request)
      ≡ some (some (sent_as response (zeroed udp_buffer_size) (message_of request) c')))
udp_handled =
    handled_in (zeroed udp_buffer_size) (omega (arith, length-zeroed udp_buffer_size))
      (omega (arith, length-zeroed udp_buffer_size))

udp_resolv_and_respond-encode_example :
    udp_resolv_and_respond
      (packet_args client
        (encode request ++ [])
        (length (encode request))
        (dns_handlers 255 1030 (answering 99) create_tree_node))
      put_address.0
    ≡ some (responded (ret 1) (some (encode response)) udp_handled.0)
udp_resolv_and_respond-encode_example =
    udp_resolv_and_respond-encode 255 1030 (answering 99) create_tree_node put_address.0 client
      request response request [] udp_handled.0 request-IsMessage (omega arith) udp_handled.1

-- A header with the flag TC that counts one question, and nothing else.
abbrev truncated : List ℕ
truncated = 0 ∷ 7 ∷ 2 ∷ 0 ∷ 0 ∷ 1 ∷ 0 ∷ 0 ∷ 0 ∷ 0 ∷ 0 ∷ 0 ∷ []

read_header :
    msg_header_from_buf truncated 0
    ≡ some (record {
      id = 7;
      misc1 = 2;
      misc2 = 0;
      qdcount = 1;
      ancount = 0;
      nscount = 0;
      arcount = 0;
    })
unfolding msg_header_from_buf u8n_to_u16h u8n_to_u8h
read_header = refl

tc_set : tc_of 2 ≡ 1
unfolding tc_of
tc_set = refl

qr_clear : qr_of 2 ≡ 0
unfolding qr_of
qr_clear = refl

opcode_clear : opcode_of 2 ≡ 0
unfolding opcode_of
opcode_clear = refl

udp_resolv_and_respond-truncated_example :
    udp_resolv_and_respond
      (packet_args client truncated 12 (dns_handlers 255 1030 (answering 99) create_tree_node))
      (init_cache 900)
    ≡ none
udp_resolv_and_respond-truncated_example =
    udp_resolv_and_respond-truncated 255 1030 (answering 99) create_tree_node (init_cache 900)
      client truncated 12 _ (omega arith) read_header tc_set qr_clear opcode_clear (omega arith)

ssl_handled :
    (c' : Cache) × (resolv_handle 255 1030
        (answering 99)
        create_tree_node
        put_address.0
        (drop 2 (zeroed tls_buffer_size))
        0
        (message_of request)
      ≡ some (some (sent_as response (drop 2 (zeroed tls_buffer_size)) (message_of request) c')))
ssl_handled =
    let n = length-drop 2 (zeroed tls_buffer_size) in
    handled_in (drop 2 (zeroed tls_buffer_size)) (omega (arith, n, length-zeroed tls_buffer_size))
      (omega (arith, n, length-zeroed tls_buffer_size))

-- The request in two pieces.
abbrev pieces : List (List ℕ)
pieces =
    (0 ∷ 7 ∷ 1 ∷ 0 ∷ 0 ∷ [])
    ∷ (1 ∷ 0 ∷ 0 ∷ 0 ∷ 0 ∷ 0 ∷ 0 ∷ 2 ∷ 97 ∷ 98 ∷ 1 ∷ 99 ∷ 0 ∷ 0 ∷ 1 ∷ 0 ∷ 1 ∷ [])
    ∷ []

flatten-pieces : flatten pieces ≡ encode request
unfolding encode encode_header htons_bytes encode_section encode_question encode_rr htonl_bytes
flatten-pieces = refl

length-request : length (encode request) ≡ 22
unfolding encode encode_header htons_bytes encode_section encode_question encode_rr htonl_bytes
length-request = refl

ssl_resolv_and_respond-encode_example :
    ssl_resolv_and_respond
      (connection_args client 5 (dns_handlers 255 1030 (answering 99) create_tree_node))
      (session_of pieces [])
      put_address.0
    ≡ some (
        responded
          (ret 1)
          (some (htons_bytes (length (encode response)) ++ encode response))
          ssl_handled.0)
ssl_resolv_and_respond-encode_example =
    ssl_resolv_and_respond-encode 255 1030 (answering 99) create_tree_node put_address.0 client 5
      pieces [] request response request ssl_handled.0 request-IsMessage (omega arith)
      flatten-pieces (omega (arith, length-request)) ssl_handled.1

ssl_resolv_and_respond-runt_example :
    ssl_resolv_and_respond
      (connection_args client 5 (dns_handlers 255 1030 (answering 99) create_tree_node))
      (session_of ((1 ∷ []) ∷ (2 ∷ []) ∷ []) [])
      (init_cache 900)
    ≡ some (
        responded minus_one
          (some (0 ∷ 12 ∷ 132 ∷ 129 ∷ 0 ∷ 0 ∷ 0 ∷ 0 ∷ 0 ∷ 0 ∷ 0 ∷ 0 ∷ 0 ∷ 0 ∷ []))
          (init_cache 900))
ssl_resolv_and_respond-runt_example =
    ssl_resolv_and_respond-runt 255 1030 (answering 99) create_tree_node (init_cache 900) client 5
      ((1 ∷ []) ∷ (2 ∷ []) ∷ []) [] (omega arith)

request-IsMiss : IsMiss 255 (init_cache 900) request question domain (address ∷ []) (address ∷ [])
request-IsMiss = record {
  request = request-IsRequest;
  entries = [];
  valid = init_cache-IsCache 900;
  hold = tt;
  missed = missed;
  enough = omega arith;
  rounds = omega arith;
  records = (address-IsRecord, tt);
  served = all_open (address ∷ []) (open_address, tt);
  inhabited = omega arith;
  few = omega arith;
  fits = omega (arith, length-answered);
}

udp_resolv_and_respond-insert_database_example :
    (tree' : TreeNode) × (insert_database create_tree_node address ≡ some (ret 1, tree'))
    × (udp_resolv_and_respond
          (packet_args client
            (encode request ++ [])
            (length (encode request))
            (dns_handlers 255 1030 (answering 99) tree'))
          (init_cache 900)
        ≡ some (responded (ret 1) (some (encode response)) (init_cache 900)))
    × (ssl_resolv_and_respond
          (connection_args client 5 (dns_handlers 255 1030 (answering 99) tree'))
          (session_of pieces [])
          (init_cache 900)
        ≡ some (
            responded
              (ret 1)
              (some (htons_bytes (length (encode response)) ++ encode response))
              (init_cache 900)))
udp_resolv_and_respond-insert_database_example =
    udp_resolv_and_respond-insert_database 255 1030 (answering 99) (init_cache 900) request question
      domain (address ∷ []) (address ∷ []) request-IsMiss create_tree_node address 0 (ret 1) client
      [] client 5 pieces [] create_tree_node-IsTree (omega arith) name_of_question refl
      index_of_address nothing flatten-pieces (omega (arith, length-request))
