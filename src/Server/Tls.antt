-- ===== src/Server/Tls.antt =====
-- `ssl_resolv_and_respond` of src/socket/server.c, from the bytes that are read to those written.
use baka_dns.Base.{
  ℕ, ◌+◌, ◌-◌, ◌^◌, ◌≤◌, ◌<◌, ◌≡◌, refl, sym, ap, ap₂, ◌∙◌, true, false, Option, none, some, List,
  [], ◌∷◌, ◌++◌, map, append_assoc, append-nil, arith, length, length-append, drop, drop-drop,
  length-drop, take, take_all, flatten, ◌>>=◌, ◌==◌, ==_iff, ==_refl, Bool-cases, inl, inr, zeroed,
  length-zeroed, drop-zeroed, read_bytes, write_byte, read_bytes-drop, write_bytes,
  write_bytes-append,
}
use baka_dns.Message.{ret, minus_one}
use baka_dns.Message.Word.{htons_bytes}
use baka_dns.Message.Record.{free_heap_message, free_section}
use baka_dns.Message.Record.Free.{free_heap_message-message_of}
use baka_dns.Message.Wire.{WireMessage, IsMessage, message_of, encode}
use baka_dns.Message.Wire.ErrorResponse.{message_to_u8-construct_error_response}
use baka_dns.Message.Wire.RoundTrip.{empty_message, message_from_buf-encode}
use baka_dns.Trees.{TreeNode}
use baka_dns.Cache.{Cache}
use baka_dns.Client.{Network}
use baka_dns.Client.Reply.{message_from_buf_runt}
use baka_dns.Resolver.Handle.{resolv_handle}
use baka_dns.Resolver.Respond.{sent_as}
use baka_dns.Server.{
  Handlers, ResolvArgs, responded, tls_buffer_size, dns_recv_handle, dns_handlers,
  create_resolv_args, Session, read_loop, frame, ssl_respond, ssl_request, expected_size,
  ssl_receive, ssl_resolv_and_respond,
}

read_loop_done :
    (more : List (Option (List ℕ))) (buf : List ℕ) (n m : ℕ)
    → n ≡ m
    → read_loop more buf n m ≡ some (buf, n, false)
unfolding read_loop
read_loop_done [] buf n m e = rw (e, ==_refl m) refl
read_loop_done (none ∷ more) buf n m e = rw (e, ==_refl m) refl
read_loop_done (some bytes ∷ more) buf n m e =
    rw (e, ==_refl m, read_loop) (ap (λ k. some (buf, k, false)) e)

nil_of : {A : Type 0} → (xs : List A) → length xs ≡ 0 → xs ≡ []
nil_of [] e = refl
nil_of (x ∷ xs) e = absurd (omega arith)

-- Bytes that arrive in any pieces are put together.
read_loop-flatten :
    (chunks : List (List ℕ)) (more : List (Option (List ℕ))) (done free : List ℕ) (n m : ℕ)
    → n ≡ length done
    → m ≡ n + length (flatten chunks)
    → length (flatten chunks) ≤ length free
    → length (flatten chunks) ≤ tls_buffer_size
    → read_loop (map some chunks ++ more) (done ++ free) n m
      ≡ some ((done ++ flatten chunks) ++ drop (length (flatten chunks)) free, m, false)
unfolding read_loop
read_loop-flatten [] more done free n m at total room few =
    read_loop_done more (done ++ free) n m (omega arith)
    ∙ ap₂ (λ b k. some (b ++ free, k, false)) (sym (append-nil done)) (omega arith)
read_loop-flatten (chunk ∷ chunks) more done free n m at total room few =
    let l = length-append chunk (flatten chunks) in
    elim (Bool-cases (n == m)) [
      | inl t ↦
          let e : n ≡ m = (==_iff n m).0 t in
          let empty = nil_of (chunk ++ flatten chunks) (omega arith) in
          read_loop_done (map some (chunk ∷ chunks) ++ more) (done ++ free) n m e
          ∙ ap₂ (λ b k. some (b ++ free, k, false)) (sym (append-nil done)) e
          ∙ ap (λ xs. some ((done ++ xs) ++ drop (length xs) free, m, false)) (sym empty)
      | inr f ↦
          rw (f, read_loop)
            (rw
              (
                take_all tls_buffer_size chunk (omega arith),
                at,
                write_bytes-append done chunk free (length done) refl (omega arith),
                ◌>>=◌,
              )
              (read_loop-flatten chunks more (done ++ chunk) (drop (length chunk) free)
                  (length done + length chunk) m (sym (length-append done chunk)) (omega arith)
                  (omega (arith, length-drop (length chunk) free)) (omega arith)
                ∙ ap₂ (λ a b. some (a ++ b, m, false)) (append_assoc done chunk (flatten chunks))
                    (drop-drop (length chunk) (length (flatten chunks)) free
                      ∙ ap (λ k. drop k free) (sym l))))
    ]

frame-append :
    (a b : ℕ) (bytes rest : List ℕ)
    → frame (a ∷ b ∷ (bytes ++ rest)) (length bytes) ≡ some (htons_bytes (length bytes) ++ bytes)
unfolding frame htons_bytes
frame-append a b bytes rest =
    let size = htons_bytes (length bytes) in
    let n : length bytes + 2 ≡ length (size ++ bytes) = omega arith in
    rw (write_bytes-append [] size (a ∷ b ∷ (bytes ++ rest)) 0 refl (omega arith), ◌>>=◌)
      (ap (read_bytes (size ++ (bytes ++ rest)) 0) n
        ∙ read_bytes-drop (size ++ (bytes ++ rest)) 0 (size ++ bytes) rest refl)

expected_size-htons_bytes : (n : ℕ) → n < 2 ^ 16 → expected_size (take 2 (htons_bytes n)) ≡ some n
unfolding expected_size htons_bytes
expected_size-htons_bytes n h = ap some (ground arith)

two_zeros : take 2 (zeroed tls_buffer_size) ≡ 0 ∷ 0 ∷ []
unfolding zeroed
two_zeros = refl

-- The error response behind which the number of its bytes is written.
frame-error :
    frame
      ((0 ∷ 0 ∷ 132 ∷ 129 ∷ 0 ∷ 0 ∷ 0 ∷ 0 ∷ 0 ∷ 0 ∷ 0 ∷ 0 ∷ []) ++ drop 12 (zeroed tls_buffer_size))
      12
    ≡ some (0 ∷ 12 ∷ 132 ∷ 129 ∷ 0 ∷ 0 ∷ 0 ∷ 0 ∷ 0 ∷ 0 ∷ 0 ∷ 0 ∷ 0 ∷ 0 ∷ [])
unfolding frame htons_bytes zeroed write_bytes write_byte read_bytes
frame-error = refl

-- A session in which the client sends some bytes, in any pieces, behind their number.
abbrev pub session_of : List (List ℕ) → List (Option (List ℕ)) → Session
session_of chunks more = record {
  accepted = true;
  reads = some (htons_bytes (length (flatten chunks))) ∷ (map some chunks ++ more);
  write_done = true;
}

-- The argument of the job for a connection that the responder has accepted.
abbrev pub connection_args : List ℕ → ℕ → Handlers → ResolvArgs
connection_args addr clientfd handlers = create_resolv_args (some addr) none 0 handlers clientfd

module _ (fuel now : ℕ) (net : Network) (tree : TreeNode) (c : Cache) (addr : List ℕ) (clientfd : ℕ)
    (chunks : List (List ℕ)) (more : List (Option (List ℕ))) where
  ssl_resolv_and_respond-flatten :
      length (flatten chunks) ≤ tls_buffer_size
      → ssl_resolv_and_respond
          (connection_args addr clientfd (dns_handlers fuel now net tree))
          (session_of chunks more)
          c
        ≡ ssl_request
            (dns_handlers fuel now net tree)
            true
            (flatten chunks ++ zeroed (tls_buffer_size - length (flatten chunks)))
            (length (flatten chunks))
            c
  unfolding ssl_resolv_and_respond ssl_receive create_resolv_args
  ssl_resolv_and_respond-flatten few =
      let n = length (flatten chunks) in
      let loop =
        read_loop-flatten chunks more [] (zeroed tls_buffer_size) 0 n refl (omega arith)
          (omega (arith, length-zeroed tls_buffer_size)) few in
      rw (expected_size-htons_bytes n (omega arith), ssl_receive)
        (rw (loop, ◌>>=◌)
          (ap (λ b. ssl_request (dns_handlers fuel now net tree) true (flatten chunks ++ b) n c)
            (drop-zeroed n tls_buffer_size few)))

  -- A client that sends the length of a valid message and the message, in any pieces, gets the length
  -- of the response and the response in one write, where `resolv_handle` makes that response of the
  -- message.
  pub ssl_resolv_and_respond-encode :
      (w r w' : WireMessage) (c' : Cache)
      → IsMessage w
      → 255 ≤ fuel
      → flatten chunks ≡ encode w
      → length (encode w) ≤ tls_buffer_size
      → resolv_handle fuel now net tree c (drop 2 (zeroed tls_buffer_size)) 0 (message_of w)
        ≡ some (some (sent_as r (drop 2 (zeroed tls_buffer_size)) (message_of w') c'))
      → ssl_resolv_and_respond
          (connection_args addr clientfd (dns_handlers fuel now net tree))
          (session_of chunks more)
          c
        ≡ some (responded (ret 1) (some (htons_bytes (length (encode r)) ++ encode r)) c')
  unfolding ssl_request ssl_respond dns_recv_handle
  ssl_resolv_and_respond-encode w r w' c' v enough sends few handles =
      let buffer = λ (bytes : List ℕ). bytes ++ zeroed (tls_buffer_size - length bytes) in
      let request = λ (bytes : List ℕ).
        ssl_request (dns_handlers fuel now net tree) true (buffer bytes) (length bytes) c in
      let reads =
        message_from_buf-encode fuel w (zeroed (tls_buffer_size - length (encode w)))
          (length (encode w)) v enough (omega arith) in
      ssl_resolv_and_respond-flatten (rw sends few)
      ∙ ap request sends
      ∙ rw (reads, ssl_request, ◌>>=◌)
          (rw (handles, ◌>>=◌)
            (rw
              (
                ap
                      (λ b.
                        frame
                          (b
                            ++ (encode r
                                ++ drop (length (encode r)) (drop 2 (zeroed tls_buffer_size))))
                          (length (encode r)))
                      two_zeros
                    ∙ frame-append 0 0 (encode r)
                        (drop (length (encode r)) (drop 2 (zeroed tls_buffer_size))),
                ◌>>=◌,
              )
              (rw (free_heap_message-message_of w', ◌>>=◌) refl)))

  -- A client that sends less than a header, in any pieces, gets a write of 14 bytes: the number 12 and
  -- 12 bytes. These are not the error response that `message_to_u8` wrote: the number has taken the
  -- place of its id, so they are its header from the flags on, and two zero bytes.
  pub ssl_resolv_and_respond-runt :
      length (flatten chunks) < 12
      → ssl_resolv_and_respond
          (connection_args addr clientfd (dns_handlers fuel now net tree))
          (session_of chunks more)
          c
        ≡ some (
            responded minus_one
              (some (0 ∷ 12 ∷ 132 ∷ 129 ∷ 0 ∷ 0 ∷ 0 ∷ 0 ∷ 0 ∷ 0 ∷ 0 ∷ 0 ∷ 0 ∷ 0 ∷ []))
              c)
  unfolding ssl_request dns_recv_handle free_heap_message free_section
  ssl_resolv_and_respond-runt short =
      let n = length (flatten chunks) in
      let refused =
        message_from_buf_runt fuel (flatten chunks ++ zeroed (tls_buffer_size - n)) n empty_message
          short in
      let wrote =
        message_to_u8-construct_error_response 1 (zeroed tls_buffer_size) (omega arith)
          (omega (arith, length-zeroed tls_buffer_size)) in
      ssl_resolv_and_respond-flatten (omega arith)
      ∙ rw (refused, ssl_request, ◌>>=◌) (rw (wrote, ◌>>=◌) (rw (frame-error, ◌>>=◌) refl))
