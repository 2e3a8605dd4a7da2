-- ===== src/Tests/Resolver.antt =====
-- `send_question` and `resolv_handle` of src/socket on the sample request.
use baka_dns.Base.{
  ℕ, ◌+◌, ◌-◌, ◌%◌, ◌^◌, ◌≤◌, ◌≡◌, refl, false, some, none, List, [], ◌∷◌, ◌++◌, arith, length,
  length-zeroed, zeroed, All, inl,
}
use baka_dns.Message.Flags.{qr_of, opcode_of}
use baka_dns.Message.Word.{htons_bytes, htonl_bytes}
use baka_dns.Message.Name.{domain_len, strnlen, strncmp_eq}
use baka_dns.Message.Record.{rr_copy, copy_rdata, check_blocked}
use baka_dns.Message.Wire.{
  IsRecord, message_of, encode, encode_header, encode_question, encode_rr, encode_section,
}
use baka_dns.Message.Wire.RoundTrip.{blank, zero_header}
use baka_dns.Trees.{create_tree_node}
use baka_dns.Trees.Contents.{create_tree_node-IsTree}
use baka_dns.Cache.{Cache, init_cache, is_asked}
use baka_dns.Cache.Walk.{find_list}
use baka_dns.Cache.Put.{init_cache-IsCache}
use baka_dns.Client.{returns, send_question}
use baka_dns.Client.Edns.{with_edns}
use baka_dns.Client.Reply.{answer, asked, outcome, send_question-outcome}
use baka_dns.Resolver.Handle.{resolv_handle}
use baka_dns.Cache.Total.{AllHold, Contains, rr_cmp_self}
use baka_dns.Resolver.{put_all}
use baka_dns.Resolver.Caching.{AfterAll, IsFound, cache_find_rr-put_all}
use baka_dns.Resolver.Respond.{local_response, sent_as}
use baka_dns.Resolver.Question.{question_text}
use baka_dns.Resolver.Blocked.{all_open}
use baka_dns.Resolver.Local.{IsRequest, resolv_handle-cached, resolv_handle-Served}
use baka_dns.Resolver.External.{IsExchange}
use baka_dns.Resolver.Pair.{IsPair, resolv_handle-two_cached}
use baka_dns.Resolver.Pair.Hit.{Asks}
use baka_dns.Resolver.Relay.{resolv_handle-relayed}
use baka_dns.Tests.Sample.{
  domain, domain-IsDomain, question, name_of_question, address, address-IsRecord, request,
  request-IsMessage, twice, twice-IsMessage, reply_with, reply_with-IsMessage, answering,
  put_address, entry, stored_address, stored_nothing,
}

pub request-IsRequest : IsRequest request question domain
unfolding qr_of opcode_of
request-IsRequest = record {
  valid = request-IsMessage;
  request = refl;
  query = refl;
  one = refl;
  domain = domain-IsDomain;
  name = name_of_question;
}

-- The text is "ab.c.".
text : question_text domain ≡ 97 ∷ 98 ∷ 46 ∷ 99 ∷ 46 ∷ []
unfolding question_text
text = refl

length-asked : length (encode (asked 99 request)) ≡ 33
unfolding encode encode_header htons_bytes encode_section encode_question encode_rr htonl_bytes
    with_edns
length-asked = refl

length-reply_with : length (encode (reply_with 99)) ≡ 42
unfolding encode encode_header htons_bytes encode_section encode_question encode_rr htonl_bytes
length-reply_with = refl

length-relayed : length (encode (reply_with 7)) ≡ 42
unfolding encode encode_header htons_bytes encode_section encode_question encode_rr htonl_bytes
length-relayed = refl

pub length-answered : length (encode (local_response request (address ∷ []))) ≡ 42
unfolding encode encode_header htons_bytes encode_section encode_question encode_rr htonl_bytes
length-answered = refl

pub found : find_list (entry ∷ []) question.qname 1 1 ≡ some (address ∷ [])
unfolding find_list is_asked domain_len strnlen strncmp_eq rr_copy copy_rdata
    baka_dns.Base.read_bytes
found = refl

pub missed : find_list [] question.qname 1 1 ≡ some []
unfolding find_list
missed = refl

pub open_address : check_blocked address ≡ some false
unfolding check_blocked baka_dns.Base.read_bytes
open_address = refl

send_question-outcome_example :
    send_question 255 (answering 99) (message_of request) (blank zero_header)
    ≡ some (
        returns
          (outcome 7 99 zero_header (answer (reply_with 99))).0
          (message_of (asked 7 request))
          (outcome 7 99 zero_header (answer (reply_with 99))).1)
send_question-outcome_example =
    send_question-outcome 255 (answering 99) request zero_header (answer (reply_with 99))
      (omega arith) refl refl request-IsMessage (omega arith) (omega (arith, length-asked))
      (reply_with-IsMessage 99 (omega arith), omega (arith, length-reply_with)) refl

resolv_handle-cached_example :
    (c' : Cache) × (resolv_handle 255 1030
        (answering 99)
        create_tree_node
        put_address.0
        (zeroed 512)
        0
        (message_of request)
      ≡ some (
          some
            (sent_as (local_response request (address ∷ [])) (zeroed 512) (message_of request) c')))
    × AfterAll IsRecord c' (entry ∷ []) (address ∷ [])
resolv_handle-cached_example =
    resolv_handle-cached 255 1030 (answering 99) create_tree_node put_address.0 (zeroed 512) 0
      request question domain request-IsRequest (entry ∷ []) put_address.2 (address-IsRecord, tt)
      address [] found (omega arith) (omega arith)
      (omega (arith, length-answered, length-zeroed 512)) (omega (arith, length-zeroed 512))

resolv_handle-Served_example :
    resolv_handle 255 1030
      (answering 99)
      stored_address.0
      (init_cache 900)
      (zeroed 512)
      0
      (message_of request)
    ≡ some (
        some (
          sent_as
            (local_response request (address ∷ []))
            (zeroed 512)
            (message_of request)
            (init_cache 900)))
resolv_handle-Served_example =
    resolv_handle-Served 255 1030 (answering 99) stored_address.0 (init_cache 900) (zeroed 512) 0
      request question domain request-IsRequest [] (init_cache-IsCache 900) tt missed (omega arith)
      stored_address.1 (rw stored_address.2 (address-IsRecord, tt)) (address ∷ [])
      (rw stored_address.2 (all_open (address ∷ []) (open_address, tt)))
      (rw stored_address.2 (omega arith)) (rw stored_address.2 (omega arith))
      (omega (arith, length-answered, length-zeroed 512)) (omega (arith, length-zeroed 512))

exchanged : IsExchange (answering 99) request (answer (reply_with 99))
exchanged = record {
  created = refl;
  timeout = refl;
  small = omega arith;
  fits = omega (arith, length-asked);
  valid = (reply_with-IsMessage 99 (omega arith), omega (arith, length-reply_with));
  replied = refl;
}

resolv_handle-relayed_example :
    (c' : Cache) × (resolv_handle 255 1030
        (answering 99)
        create_tree_node
        (init_cache 900)
        (zeroed 512)
        0
        (message_of request)
      ≡ some (some (sent_as (reply_with 7) (zeroed 512) (message_of (asked 7 request)) c')))
    × AfterAll IsRecord c' [] (address ∷ [])
resolv_handle-relayed_example =
    resolv_handle-relayed 255 1030 (answering 99) create_tree_node (init_cache 900) [] (zeroed 512)
      0 request question domain (answer (reply_with 99)) request-IsRequest (init_cache-IsCache 900)
      tt missed create_tree_node-IsTree stored_nothing exchanged (omega arith) (reply_with 99) refl
      refl (omega arith) (omega (arith, length-relayed, length-zeroed 512))
      (omega (arith, length-zeroed 512))

cache_find_rr-put_all_example :
    (c' : Cache) × (put_all 2 1000 (init_cache 900) (address ∷ []) ≡ some c')
    × All (IsFound 2 c') (address ∷ [])
    × AllHold (IsFound 2 c') []
cache_find_rr-put_all_example =
    cache_find_rr-put_all 2 1000 (init_cache 900) [] (address ∷ []) (init_cache-IsCache 900) tt
      ((address-IsRecord.name, address-IsRecord.holds), tt) (omega arith)

question-Asks : Asks question address domain
question-Asks = record {
  domain = domain-IsDomain;
  qname = name_of_question;
  name = refl;
  type = refl;
  class = refl;
}

twice-IsPair : IsPair twice (entry ∷ []) question question address address domain domain
unfolding qr_of opcode_of
twice-IsPair =
    let cached : IsRecord address × Contains (entry ∷ []) address = (
      address-IsRecord,
      inl (rr_cmp_self address (address-IsRecord.name, address-IsRecord.holds)),
    ) in
    record {
      valid = twice-IsMessage;
      request = refl;
      query = refl;
      two = refl;
      asks1 = question-Asks;
      asks2 = question-Asks;
      cached1 = cached;
      cached2 = cached;
    }

resolv_handle-two_cached_example :
    resolv_handle 5 1030
      (answering 99)
      create_tree_node
      put_address.0
      (zeroed 512)
      0
      (message_of twice)
    ≡ none
resolv_handle-two_cached_example =
    resolv_handle-two_cached 5 1030 (answering 99) create_tree_node put_address.0 (entry ∷ [])
      (zeroed 512) 0 twice question question address address domain domain twice-IsPair
      put_address.2 (address-IsRecord, tt) (omega arith)
