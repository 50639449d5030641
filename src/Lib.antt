-- ===== src/Lib.antt =====
-- The core of the Mongrel2 web server (src/), as functions on explicit state.
--
-- The program. A server accepts a socket, gives the connection a task, and the task drives a state
-- machine: `Connection_task` of src/connection.c sends each event to `State_exec` of src/state.c,
-- which calls one or more handlers (`CONN_ACTIONS` of src/connection.c), and what the last of them
-- returns is the next event. Handlers read a request, register the descriptor (src/register.c),
-- find the host and the backend of a path (src/server.c, src/host.c) in maps (src/routing.c) that
-- are ternary search trees (src/adt/tst.c), and pass the request on to a 0MQ handler, a proxied
-- server or a directory.
--
-- Which file models which part:
--   State          `State_init`, `State_exec`, `State_finish` of src/state.c, label by label
--   State/Chart    src/state_machine.rl and the actions of src/state.rl
--   Register       src/register.c; Register/Ids: sequences of its calls
--   Tst            src/adt/tst.c; Tst/Traverse: `tst_traverse` with its ring; Tst/Collect
--   Routing        src/routing.c; Routing/Longest, Literal and Matches: what a lookup answers
--   Host           src/host.c and the host part of src/server.c
--   Cache          src/cache.c; Cache/Least: what `Cache_add` replaces
--   Connection     src/connection.h; Connection/Header, Routes, Delivery, Proxies: the handlers of
--                  src/connection.c; Connection/Task: `Connection_task` and `CONN_ACTIONS`
--   Dir            src/dir.c; Dir/Find: finding, counting and caching of files, Dir/Requests: requests
--                  in any order, Dir/Answer: conditional requests, Dir/Serve: `Dir_serve_file`, with
--                  the texts of src/response.c
--   Request        src/request.c; Request/Parse: `Request_parse` over HttpParser; Request/Payload:
--                  `Request_to_payload` and the reader of examples/python/mongrel2/request.py
--   Ragel          the machines of src/http11 as Ragel compiled them: `switch ( cs )`, the tests of a
--                  `case`, the labels; Ragel/Walk, Phases and Steps: how to reason about a table
--   HttpParser     src/http11/http11_parser.c with the actions of http11_parser.rl; HttpParser/Labels
--                  and Cases: its labels `trN` and its `case N`, under the same numbers;
--                  HttpParser/Execute: `http_parser_init`, `http_parser_execute`; then Resume (a
--                  buffer in pieces), Bounds, Order (of the callbacks), RoundTrip
--   HttpClientParser   src/http11/httpclient_parser.c in the same way; HttpClientParser/Unset: callbacks
--                  that are NULL, as in src/connection.c
--   HandlerParser  src/handler_parser.c; HandlerParser/Message: the messages of
--                  examples/python/mongrel2/handler.py
--   Handler        src/handler.c, from a message to the connections; Handler/Spared: which
--                  connections a message leaves alone
--   SuperPoll      src/superpoll.c with epoll
--   Strings        the string functions the code calls, as parameters
--   Prelude        numbers, tests, lists and arrays that all share
--   Tests          each theorem with hypotheses, at values that meet them
--
-- Conventions. C numbers are natural numbers with the wrap-around of their type written out where
-- the source relies on it (the 16-bit ids of src/register.c); an `int` that can be negative is an
-- integer. A NULL pointer is `none`, as is the result of a call whose `assert` fails. A `char` is
-- its value plus 128, which keeps the order of signed chars. Allocation is taken to succeed. A
-- handler is a function from a connection to an event and a connection; a jump to its label
-- `error` is `none` in the monad of Connection/Monad.
--
-- Parameters. Strings holds what is called of src/bstr and of src/pattern.c. Connection.Outside
-- holds what is called of src/task (sockets, descriptors), 0MQ, the parsers of src/http11, and the
-- answers of src/request.c, src/dir.c, src/proxy.c and src/handler.c; a theorem names what it asks
-- of them. Dir.Files, Dir.Serve.Socket, Handler.Net and SuperPoll.Kernel hold the system calls and
-- those of libtask and 0MQ; Request.Headers holds the dictionary of src/adt/dict.c. `strtol` is an
-- argument of the actions of HttpClientParser.
--
-- Bounds and fuel. The blocks of src/http11 recurse on the chars that are left. `read_loop` has
-- BUFFER_SIZE + 1 rounds: each reads a byte into a buffer of fewer.
-- `body_loop` and `upload_loop` have a round for each byte still to come. The rounds of
-- `tst_traverse` are those of a walk that takes a node off the queue in each. `Connection_task` runs
-- as long as its client keeps the connection, so `task` takes the number of events as an argument.
-- `relay_loop` has a round more than reads are answered by the backend, which `proxy_left` counts.
-- `stream_file` has a round more than the file has bytes: each sends one at least.
--
-- Not modelled: the TLS reads and writes of src/connection.c, creation and release of memory, the
-- settings, logging; the set-up of sockets and of polling, the TLS branch of `Dir_stream_file`;
-- src/proxy.c; src/config, src/control.c, src/unixy.c and src/mongrel2.c, which are calls of the
-- system, of SQLite and of 0MQ; the copies of other projects in src/bstr,
-- src/adt (but for tst.c), src/task, src/mem, src/ssl, src/crypto and src/pattern.c.
pub mod Prelude
pub mod State
pub mod Ragel
pub mod HttpParser
pub mod HttpClientParser
pub mod Register
pub mod Request
pub mod Tst
pub mod Strings
pub mod SuperPoll
pub mod Routing
pub mod Host
pub mod Cache
pub mod Dir
pub mod Handler
pub mod HandlerParser
pub mod Connection
mod Tests
