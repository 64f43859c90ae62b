-- ===== src/Lib.antt =====
-- LeForum: a forum server and its client over TCP.
--
-- The server keeps threads with their messages in memory (g_lethread_queue), answers requests
-- (GTHR, CTHR, FTHR, CMSG, META, LIVE), and has threads that write what the handlers put in three
-- queues to disk. The client builds requests and reads responses. Both use a small library of linked
-- queues, shared pointers, random values and forum data.
--
-- Files and the code that they model:
--   Conf            src/global/conf.h, src/lib/status.{h,c}
--   Util            src/lib/util.{h,c}: Lines is about reading lines, Joining about joining strings
--   Communication   src/lib/communication.{h,c}: a socket as the pieces that arrive from it
--   Security        src/lib/security.c
--   Forum           src/lib/forum.{h,c}; Posting is about lemessage_create, Tokens about
--                   is_token_valid
--   Queue           src/lib/queue.{h,c}: nodes at addresses of a heap
--   SharedPtr       src/lib/shared_ptr.{h,c}: counters at addresses; Counting is about the counters
--   Disk            the folders and files of the server, and the C library's calls on them
--   ForumIo         src/server/forum_io.c
--   Server          the global variables and functions of src/server/server.c
--   Server/Query    the handlers and the dispatcher of src/server/query.c
--   Server/Connection  handle_client of src/server/server.c
--   Server/Startup     startup of src/server/server.c
--   Server/Response the responses of src/server/query.c, written into growing allocations
--   Protocol        the words of the protocol, and the steps by which packets are read
--   Client/Request  gen_query_... of src/client/query.c
--   Client/Response parse_response_... of src/client/query.c
--   Client/State    the global variables of src/client/client.c
--   Client/Loop     query_loop and the waits of src/client/client.c
--   Client/Files    the tokens and the file of servers of src/client/client.c
--   Client/Input    the lines that the commands of src/client/client.c read
--   Client/Threads, Client/Servers  the commands of src/client/client.c
--   Client/Commands the commands, their numbers and names in src/client/client.{h,c}
--   Client/Menus    the loops of src/client/client.c that run the commands
--   Client/Service  the client with the server behind its socket
--   Server/Sound    the invariant of the server between requests, and that every request keeps it
--   System          any clients and the saving threads of src/server/server.c, in any order: Written is
--                   about what a round brings to disk, Durable and Restart about stopping and
--                   starting again
--   Saving          the steps of the handlers and of the saving threads of src/server/server.c
--   Exchange        a request, its processing and the reading of its response, end to end
--   Clib            memory, strings, fixed-width integers and decimal numbers, as far as the code uses
--                   them
--   Common          numbers, lists, outcomes and commands; Ends has the rules for what holds where a
--                   command ends
--   Tests           samples, and the theorems at concrete values
--
-- A pointer into a buffer is the list of the bytes from there to its end; reading past the end is a
-- fault, and so is writing past an allocation. A result is an `Outcome`: a value, a fault or a wait
-- that never ends. A handler is a command on the server: it returns, leaves early with a status, or
-- faults. Memory that was never written holds arbitrary bytes, a parameter `junk` of the responses.
-- The random source is a list of bytes that is used up.
--
-- Integers are natural numbers, with `% 2 ^ 64` where a 64-bit number can wrap around. The loop that
-- doubles an allocation has 65 rounds: a size of 64 bits is reached after 64. The loop that frees a
-- queue has a round more than the queue has nodes. The loop of the FTHR parser has as many rounds as
-- the response has bytes, and each round takes 29 or more. `s_recv` has as many rounds as bytes are
-- wanted, and `s_fgets_range` two more than the input has bytes: each round takes a byte. The rounds of
-- `handle_client` are bounded by a parameter: a round more than there are requests is enough.
--
-- The menus of the client have a bound on their rounds: a round takes a byte of the input at least.
--
-- Not modelled: sockets and locks below what `recv` and `send` give, the server's main function, command
-- lines, prompts, and the destructors, which only free. Pointers to threads are places in the list of threads, and
-- the reference counts to them are left out there, since no thread is removed before the end. In System
-- a request and a round of a saving thread are one step each, so how the real threads interleave inside
-- them, on queues without locks, is not modelled, and a request that is a fault ends the run; nor is a
-- stop of the server inside a write.
pub mod Common
pub mod Clib
pub mod Conf
pub mod Security
pub mod Forum
pub mod Communication
pub mod Util
pub mod Disk
pub mod ForumIo
pub mod Protocol
pub mod Server
pub mod Client
pub mod Exchange
pub mod Saving
pub mod Queue
pub mod SharedPtr
pub mod System
mod Tests
