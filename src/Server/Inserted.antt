-- ===== src/Server/Inserted.antt =====
-- A record that src/storage/database.c has inserted, in the responses of src/socket/server.c.
use mathlib.Core.List.{reverse}
use baka_dns.Base.{
  ℕ, ◌^◌, ◌≤◌, ◌<◌, ◌≡◌, Option, some, List, [], ◌++◌, All, arith, length, drop, length-drop,
  zeroed, length-zeroed, flatten,
}
use baka_dns.Message.{MessageQuestion, ResourceRecord, IntRet, ret}
use baka_dns.Message.Word.{htons_bytes}
use baka_dns.Message.Labels.{Label, encode_labels}
use baka_dns.Message.Wire.{WireMessage, IsRecord, message_of, encode}
use baka_dns.Trees.{TreeNode, child, element_index}
use baka_dns.Trees.Find.{IsTree}
use baka_dns.Trees.Contents.{contents, put_list}
use baka_dns.Trees.Search.{stored}
use baka_dns.Database.{insert_database}
use baka_dns.Database.Select.{insert_database-Updated, Updated-same}
use baka_dns.Cache.{Cache}
use baka_dns.Cache.Segment.{Entry}
use baka_dns.Cache.Walk.{IsCache, find_list}
use baka_dns.Cache.Total.{AllHold}
use baka_dns.Client.{Network}
use baka_dns.Resolver.{ancount_max}
use baka_dns.Resolver.Handle.{resolv_handle}
use baka_dns.Resolver.Respond.{local_response, sent_as}
use baka_dns.Resolver.Blocked.{Served}
use baka_dns.Resolver.Local.{IsRequest, resolv_handle-Served}
use baka_dns.Server.{
  responded, dns_handlers, udp_buffer_size, tls_buffer_size, udp_resolv_and_respond,
  ssl_resolv_and_respond,
}
use baka_dns.Server.Udp.{packet_args, udp_resolv_and_respond-encode}
use baka_dns.Server.Tls.{session_of, connection_args, ssl_resolv_and_respond-encode}

-- A request that the cache does not answer, for records that the database has.
pub record IsMiss (fuel : ℕ) (c : Cache) (w : WireMessage) (q : MessageQuestion) (ls : List Label)
    (news answers : List ResourceRecord) : Type 0 where
  pub request : IsRequest w q ls
  pub entries : List Entry
  pub valid : IsCache c entries
  pub hold : AllHold IsRecord entries
  pub missed : find_list entries q.qname q.qtype q.qclass ≡ some []
  pub enough : length entries < fuel
  pub rounds : 255 ≤ fuel
  pub records : All IsRecord news
  pub served : Served news answers
  pub inhabited : 0 < length news
  pub few : length news ≤ ancount_max
  pub fits : length (encode (local_response w answers)) ≤ udp_buffer_size

module _ (fuel now : ℕ) (net : Network) (c : Cache) (w : WireMessage) (q : MessageQuestion)
    (ls : List Label) (news answers : List ResourceRecord)
    (m : IsMiss fuel c w q ls news answers) where
  handled :
      (tree : TreeNode) (sendbuf : List ℕ)
      → IsTree tree
      → stored tree (reverse ls) q.qtype ≡ news
      → udp_buffer_size ≤ length sendbuf
      → length sendbuf < 2 ^ 32
      → resolv_handle fuel now net tree c sendbuf 0 (message_of w)
        ≡ some (some (sent_as (local_response w answers) sendbuf (message_of w) c))
  handled tree sendbuf t here room small =
      resolv_handle-Served fuel now net tree c sendbuf 0 w q ls m.request m.entries m.valid m.hold
        m.missed m.enough t (rw here m.records) answers (rw here m.served) (rw here m.inhabited)
        (rw here m.few) (omega (arith, m.fits)) small

  -- After `insert_database` of a record, whose name has at least one label, a valid request for its name
  -- and type gets the same response from the UDP and the TLS server, if the cache does not answer it:
  -- the wire format of a response with the records that the database then has, or with none of them if
  -- one is blocked. They are the new record behind the old ones, or the old ones where `put_list`
  -- refuses it. The TLS client may send the request in any pieces, and the response has its length in
  -- front. There are 1 to 100 records of the name and type, the response has room in the buffer of the
  -- UDP server, and the cache is unchanged.
  pub udp_resolv_and_respond-insert_database :
      (tree : TreeNode) (rr : ResourceRecord) (index : ℕ) (result : IntRet)
      (cliaddr rest addr : List ℕ) (clientfd : ℕ) (chunks : List (List ℕ))
      (more : List (Option (List ℕ)))
      → IsTree tree
      → 0 < length ls
      → rr.name ≡ encode_labels ls
      → rr.type ≡ q.qtype
      → element_index rr.type ≡ some index
      → put_list rr (contents (reverse ls) (child tree) index) ≡ some (result, news)
      → flatten chunks ≡ encode w
      → length (encode w) ≤ tls_buffer_size
      → (tree' : TreeNode) × (insert_database tree rr ≡ some (result, tree'))
        × (udp_resolv_and_respond
              (packet_args cliaddr
                (encode w ++ rest)
                (length (encode w))
                (dns_handlers fuel now net tree'))
              c
            ≡ some (responded (ret 1) (some (encode (local_response w answers))) c))
        × (ssl_resolv_and_respond
              (connection_args addr clientfd (dns_handlers fuel now net tree'))
              (session_of chunks more)
              c
            ≡ some (
                responded
                  (ret 1)
                  (some (
                    htons_bytes (length (encode (local_response w answers)))
                    ++ encode (local_response w answers)))
                  c))
  udp_resolv_and_respond-insert_database tree rr index result cliaddr rest addr clientfd chunks more
        t some_label name type i put sends few =
      let (tree', runs, u) =
        insert_database-Updated tree rr ls index result news t m.request.domain some_label name i
          put in
      let here : stored tree' (reverse ls) q.qtype ≡ news =
        Updated-same tree tree' (reverse ls) q.qtype index news u (rw type at i) in
      let r = local_response w answers in
      let n = length-drop 2 (zeroed tls_buffer_size) in
      let udp =
        handled tree' (zeroed udp_buffer_size) u.valid here
          (omega (arith, length-zeroed udp_buffer_size))
          (omega (arith, length-zeroed udp_buffer_size)) in
      let ssl =
        handled tree' (drop 2 (zeroed tls_buffer_size)) u.valid here
          (omega (arith, n, length-zeroed tls_buffer_size))
          (omega (arith, n, length-zeroed tls_buffer_size)) in
      (
        tree',
        runs,
        udp_resolv_and_respond-encode fuel now net tree' c cliaddr w r w rest c m.request.valid
            m.rounds udp,
        ssl_resolv_and_respond-encode fuel now net tree' c addr clientfd chunks more w r w c
            m.request.valid m.rounds sends few ssl,
      )
