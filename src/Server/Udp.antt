-- ===== src/Server/Udp.antt =====
-- `udp_resolv_and_respond` of src/socket/server.c, from the packet to the response.
use baka_dns.Base.{
  ℕ, zero, suc, ◌≤◌, ◌<◌, ◌≡◌, refl, none, some, List, [], ◌∷◌, ◌++◌, arith, length, drop, ◌>>=◌,
  zeroed, read_bytes, write_bytes, write_byte, read_bytes-drop, lt→ltb, le→ltb,
}
use baka_dns.Message.{MessageHeader, ret}
use baka_dns.Message.Flags.{create_misc1, create_misc2, tc_of, qr_of, opcode_of}
use baka_dns.Message.Parse.{message_from_buf, msg_header_from_buf}
use baka_dns.Message.Record.{free_heap_message, free_section, free_elements}
use baka_dns.Message.Record.Free.{free_heap_message-message_of}
use baka_dns.Message.Wire.{WireMessage, IsMessage, message_of, encode}
use baka_dns.Message.Wire.RoundTrip.{blank, empty_message, message_from_buf-encode}
use baka_dns.Trees.{TreeNode}
use baka_dns.Cache.{Cache}
use baka_dns.Client.{Network}
use baka_dns.Message.Print.{message_to_u8, msg_header_to_u8, section_to_u8}
use baka_dns.Message.Word.{u16h_to_u8n, htons_bytes}
use baka_dns.Resolver.{setup_answer, read_elements, Lookup, lookup_loop}
use baka_dns.Resolver.Handle.{
  conclude, ask_upstream, finish, answer_locally, answer_failure, paste_questions, copy_questions,
  respond, look_up, resolv_handle,
}
use baka_dns.Resolver.Respond.{sent_as}
use baka_dns.Server.{
  Handlers, ResolvArgs, responded, thread_ended, udp_buffer_size, dns_recv_handle, dns_handlers,
  create_resolv_args, udp_respond, udp_resolv_and_respond,
}

-- The argument of the job for a packet that the responder has received.
abbrev pub packet_args : List ℕ → List ℕ → ℕ → Handlers → ResolvArgs
packet_args cliaddr rcvbuffer nrecv handlers =
    create_resolv_args (some cliaddr) (some rcvbuffer) nrecv handlers 0

module _ (fuel now : ℕ) (net : Network) (tree : TreeNode) (c : Cache) (cliaddr : List ℕ) where
  -- A packet that holds a valid message, which `resolv_handle` answers with some response, is answered
  -- with exactly the wire format of that response.
  pub udp_resolv_and_respond-encode :
      (w r w' : WireMessage) (rest : List ℕ) (c' : Cache)
      → IsMessage w
      → 255 ≤ fuel
      → resolv_handle fuel now net tree c (zeroed udp_buffer_size) 0 (message_of w)
        ≡ some (some (sent_as r (zeroed udp_buffer_size) (message_of w') c'))
      → udp_resolv_and_respond
          (packet_args cliaddr
            (encode w ++ rest)
            (length (encode w))
            (dns_handlers fuel now net tree))
          c
        ≡ some (responded (ret 1) (some (encode r)) c')
  unfolding udp_resolv_and_respond udp_respond dns_recv_handle create_resolv_args
  udp_resolv_and_respond-encode w r w' rest c' v enough handles =
      rw (message_from_buf-encode fuel w rest (length (encode w)) v enough (omega arith), ◌>>=◌)
        (rw (handles, ◌>>=◌)
          (rw
            (
              read_bytes-drop (encode r ++ drop (length (encode r)) (zeroed udp_buffer_size)) 0
                  (encode r) _ refl,
              ◌>>=◌,
            )
            (rw (free_heap_message-message_of w', ◌>>=◌) refl)))

  lookup_loop-null : (n : ℕ) (s : Lookup) → 0 < n → lookup_loop fuel now tree n [] s ≡ none
  unfolding lookup_loop
  lookup_loop-null zero s h = absurd (omega arith)
  lookup_loop-null (suc n) s h = refl

  -- A query whose header counts a question that is not there.
  resolv_handle-null :
      (h : MessageHeader) (sendbuf : List ℕ) (size : ℕ)
      → 0 < h.qdcount
      → qr_of h.misc1 ≡ 0
      → opcode_of h.misc1 ≡ 0
      → resolv_handle fuel now net tree c sendbuf size (blank h) ≡ none
  unfolding resolv_handle look_up
  resolv_handle-null h sendbuf size many request query =
      rw (request, resolv_handle)
        (rw (query, look_up) (rw (lookup_loop-null h.qdcount _ many, ◌>>=◌) refl))

  -- A truncated query with a question: `message_from_buf` refuses it, but the test of its result is never
  -- true, and `resolv_handle` reads a NULL array. The packet is at least a header long, and its header
  -- is read from its first twelve bytes.
  pub udp_resolv_and_respond-truncated :
      (packet : List ℕ) (nrecv : ℕ) (h : MessageHeader)
      → 12 ≤ nrecv
      → msg_header_from_buf packet 0 ≡ some h
      → tc_of h.misc1 ≡ 1
      → qr_of h.misc1 ≡ 0
      → opcode_of h.misc1 ≡ 0
      → 0 < h.qdcount
      → udp_resolv_and_respond (packet_args cliaddr packet nrecv (dns_handlers fuel now net tree)) c
        ≡ none
  unfolding udp_resolv_and_respond dns_recv_handle create_resolv_args message_from_buf
  udp_resolv_and_respond-truncated packet nrecv h long header truncated request query many =
      rw (le→ltb nrecv 12 long) (
        rw (header, ◌>>=◌)
          (rw truncated
            (rw (resolv_handle-null h (zeroed udp_buffer_size) 0 many request query, ◌>>=◌) refl)))

  -- The answer to a request without questions.
  udp_respond-empty :
      (resolv_handle fuel now net tree c (zeroed udp_buffer_size) 0 empty_message
        >>= elim [ none ↦ some thread_ended | some h ↦ udp_respond h ])
      ≡ some (responded (ret 1) (some (0 ∷ 0 ∷ 132 ∷ 0 ∷ 0 ∷ 0 ∷ 0 ∷ 0 ∷ 0 ∷ 0 ∷ 0 ∷ 0 ∷ [])) c)
  unfolding resolv_handle look_up lookup_loop conclude ask_upstream finish answer_locally
      answer_failure paste_questions copy_questions respond setup_answer read_elements udp_respond
      qr_of opcode_of create_misc1 create_misc2 message_to_u8 msg_header_to_u8 section_to_u8
      free_heap_message free_section free_elements u16h_to_u8n htons_bytes write_bytes write_byte
      read_bytes zeroed
  udp_respond-empty = refl

  -- A packet shorter than a header is answered with a response of a header alone, whose id is 0 and
  -- whose response code is 0.
  pub udp_resolv_and_respond-runt :
      (packet : List ℕ) (nrecv : ℕ)
      → nrecv < 12
      → udp_resolv_and_respond (packet_args cliaddr packet nrecv (dns_handlers fuel now net tree)) c
        ≡ some (responded (ret 1) (some (0 ∷ 0 ∷ 132 ∷ 0 ∷ 0 ∷ 0 ∷ 0 ∷ 0 ∷ 0 ∷ 0 ∷ 0 ∷ 0 ∷ [])) c)
  unfolding udp_resolv_and_respond dns_recv_handle create_resolv_args message_from_buf
  udp_resolv_and_respond-runt packet nrecv short = rw (lt→ltb nrecv 12 short) udp_respond-empty
