-- ===== src/Lib.antt =====
-- baka_dns is a DNS relay in C. This library models it from the packet that arrives to the response
-- that is sent.
--
-- `main` of src/main.c reads the command line (src/utils/conf.c) and the relay file
-- (src/storage/database.c), and starts the threads of src/utils/threadpool.c and the servers of
-- src/socket/server.c. A server makes a job of each packet. The job reads the packet into
-- `struct message` with src/storage/message.c and calls `resolv_handle` of src/socket/resolv.c, which
-- looks for the question in the cache (src/storage/cache.c), then in the database, which reverses the
-- name and searches the hash bucket tree of src/storage/trees.c, and else asks the upstream server
-- with `send_question` of src/socket/client.c, whose answers go to the cache. The response is written
-- by src/storage/message.c and sent.
--
-- Base: checks on numbers, lists over the native numbers, and arrays of bytes. `Option` is the monad
-- of the code that touches memory: `none` is an access outside an array, or the end of the fuel.
-- Message: the structures of src/storage/message.h. Message.Word has the conversions of integers,
-- Message.Flags the masks and `create_misc1`, `create_misc2`, Message.Name `domain_len` and
-- `read_domain`, with the names of RFC 1035 in Message.Name.Rfc, Message.Record copies, `rr_cmp`,
-- construction and `free_heap_message`, Message.Reverse `domain_rev`, Message.Parse
-- `message_from_buf`, Message.Print `message_to_u8`, each with the static functions it calls. Message.Labels and Message.Wire describe names and messages
-- independently of the code. The modules below these hold proofs.
-- Trees: the nodes, `rr_hash`, the find functions, `tree_node_insert`, `tree_insert` and
-- `tree_search`. Trees.Find has the representation invariant and the view of a node as a map,
-- Trees.Contents the view of a tree as a map from domains.
-- Conf: `parse_opt` and `parse_cmd`, and `ipv4_convert`, `ipv6_convert` of src/utils/utils.c.
-- Database: `insert_database`, `select_database`, `str_lower` and `format_domain` of
-- src/storage/database.c, and in Database.Load `init_database`. Its state is the root of the tree.
-- Database.Load.Line and Database.Load.File have what a line and a file of addresses make of it.
-- Threadpool: the functions on `struct jobqueue`. Threadpool.Fifo compares them with a list, and
-- Threadpool.Workers has `thread_work` as a step relation with sleeping threads, the signals of the
-- condition variable, and jobs that end their thread.
-- Cache: the doubly linked list of src/storage/cache.c on a heap of nodes, with `init_cache`,
-- `cache_find_rr`, `cache_put_rr` and one pass of `refresh_cache`. Cache.Segment has the linked
-- segments, Cache.Walk the invariant.
-- Client: `send_question`. What the socket calls and `rand` give is the record `Network`. Client.Edns
-- and Client.Reply have the request that is sent and what is made of the reply.
-- Resolver: `print_question` and the loop of `resolv_handle` over the questions; Resolver.Handle has
-- what follows it, and `resolv_handle`. The state is the cache, and the tree and the network are
-- arguments. The proofs are in the other modules below it, by where the answer comes from.
-- Server: `udp_resolv_and_respond` and `ssl_resolv_and_respond`, with OpenSSL as the record `Session`;
-- Server.Start has the responders and their start, Server.Inserted the way of a record from the
-- database into the responses.
-- Main: `init_storage`, and the start of the servers in `main`.
-- Tests: concrete runs, and the theorems at concrete inputs.
--
-- A pointer into a buffer is a position, or the list of the bytes from it on. A heap object is a
-- value: which block a pointer owns, and what `malloc` returns when there is no memory, are not
-- modelled. An `int` result is `IntRet`: `ret n`, or `minus_one` for -1. Where a function may end the
-- thread with `pthread_exit`, a second option stands for that. Unsigned fields wrap at their width,
-- which is written out where the code adds to them.
--
-- Fuel: `read_domain` takes a round for each byte and pointer; 255 rounds read any valid name that is
-- not compressed. `domain_rev` and `tree_search` take a round for each label and one more,
-- `tree_insert` two for each label. The database gives 1024 rounds, and a name it accepts has at most
-- 254 labels. The walks of the cache take a round for each entry and one more. `resolv_handle` has one
-- fuel for reading the reply and for the cache, and the theorems say how much is enough.
--
-- Not modelled: the log, which is output only; the endless loops of the timer thread of the cache and
-- of the responders around the rounds that are modelled; the calls that only set up or free OpenSSL.
-- `resolv_handle` runs at one time, and no other thread uses the cache within it.
pub mod Base
pub mod Message
pub mod Trees
pub mod Conf
pub mod Database
pub mod Threadpool
pub mod Cache
pub mod Client
pub mod Resolver
pub mod Server
pub mod Main
pub mod Tests
