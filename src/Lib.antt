-- ===== src/Lib.antt =====
-- A model of bigxin, a chat program: the server with its tables, and the back end of the client.
--
-- The parts of the program. A client (`src/client`, Qt) sends lines of a text protocol
-- (`include/protocol.h`) to a session of the server (`include/session.h`, `src/server/session`). The
-- session's handlers check the request and call the functions of `src/database`, which run SQL
-- statements on a pooled connection; the server (`include/server.h`, `src/server/server`) pushes what
-- has changed to the other sessions. In the client, `NetworkManager` cuts the bytes of the socket into
-- commands, `ProtocolHandler` keeps what they say in a `MessageCache` and signals it, and `LoginBackend`
-- serves the pages. The model has all of the server and the back end of the client: the functions of
-- `src/database` over the tables, the handlers over these functions, what the server
-- does with what the handlers post to it, and the four classes of `src/client/backend`.
--
-- Which file models which part.
--   Prelude: names of the libraries; `Prelude/Table`: a table as the list of its rows, and the clauses
--   of SQL over it. `Reply`: the answer of a function of the database layer, with its error codes.
--   `Database/Schema`: the rows of `src/database/sql` and the whole state `Db`.
--   `Database/Exec`: a coroutine as a function on a `World`, which has the tables and the oracle
--   that says which statement fails; transactions, `try` blocks; `Database/Exec/Keeps`: the rules
--   by which an action keeps an invariant.
--   `Database/Rows`: statements that several functions share.
--   `Database/Auth`, `Database/Conversation`, `Database/Friend`, `Database/Message`,
--   `Database/Reaction`, `Database/Group`: `src/database/auth.cpp`, `conversation.cpp`, `friend.cpp`,
--   `message.cpp` (two files) and `group.cpp`. A function keeps its name; the lambda
--   of a row that is found is `…_found`, the statements of a transaction are `…_body`.
--   `Database/Direct`: statements that the handlers run themselves. `Database/Pool`: the pool of
--   connections (`connection.cpp`).
--   `Protocol`: the lines of the protocol, parsed and made (`include/protocol.h`).
--   `Text`: white space and `std::stoll`.
--   `Server/Cache`, `Server/Sessions`, `Server/Push`: `src/server/server/cache.cpp`, `broadcast.cpp` and
--   `push.cpp` with `include/server.h`: the two caches, the sessions that are connected with their index by
--   user, and the lines that are sent to them.
--   `Session/Handler`: what the handlers share: a request's JSON object as what can be read off it, the
--   session's fields, the caches, and the list of what was posted to the server's strand; `Session/Handler/Holds`:
--   the rules by which a handler keeps an invariant of the tables.
--   `Session/Account`, `Session/Friend`, `Session/Group`, `Session/Conversation`, `Session/Members`,
--   `Session/Roles`, `Session/Leave`, `Session/Avatar`, `Session/Message`, `Session/Reaction`: the handlers of
--   `src/server/session`, by what they are about. `Session/Dispatch`: the commands of `Session::run`.
--   `Session/Invariants`: the functions of the database layer that write, as an interface of what keeps an
--   invariant, and what it means for all commands.
--   `Session/Outgoing`: the buffer of lines of one connection (`send_text_impl` of `include/session.h`),
--   as steps between the suspensions of its coroutines, with all the coroutines that run. `Session/Reading`: the
--   loop of `Session::run` that reads lines, with its fuel.
--   `Client/Qt`: what the client takes from Qt, as a record of operations (`Qt`) and of what their
--   documentation says (`IsQt`); `Client/Samples` has a value that meets it. `Client/Hash`: a `QHash`.
--   `Client/Network`: `network_manager.cpp`, with the loop over the lines of the buffer on fuel, of which the
--   buffer's length is enough because each round takes a byte away; `Network/Stream` reads the bytes one by one
--   instead, `Network/RoundTrip` joins it to the server's `make_line`, and `Network/Requests`
--   what it sends to the reading loop of the server.
--   `Client/MessageCache`: `message_cache.cpp`; a file is a value under its directory and name, and each call is
--   given whether files can be opened. `Client/Handler` and its children: `protocol_handler.cpp`, a function
--   from the state and the response to the state and the list of signals; `Handler/Dispatch`: `handleCommand`;
--   `Handler/Closed`: what has to be shown of each handler for all commands.
--   `Client/Login` and its children: `login_backend.cpp`, a function on the state for each call and each
--   slot; `Login/Step`: all of them, and the events of the socket, as steps.
--
-- Conventions. An identifier or an `i64` is a natural number, and 0 stands for every value that is not
-- positive, since the code asks only `<= 0` and `> 0`; counters are taken not to reach 2^63. The
-- clock's reading is an argument. A statement is one step and either happens as a whole or changes
-- nothing and throws; `fails` ranges over every pattern of failures, and a function is
-- not interleaved with another, which the row locks of the transactions ensure only in part. A transaction in
-- which a statement throws is rolled back. Texts are compared exactly, where the collation of the
-- database also takes some texts that differ in case for equal; `affected_rows` counts the rows
-- that an `UPDATE` changes, as MySQL does unless it is told otherwise. The user of a session is
-- in the table `users`, which nothing deletes from, so the foreign keys of the user who asks are not checked
-- again when a request is inserted. Columns that no
-- statement reads (the times of creation, of an answer and of the last login) are left out. A view of a row can be
-- read after its result set was used again. The loops run over lists, but
-- for `to_string`, whose 19 digits hold every `i64`.
-- The JSON parser, the calendar and the format of a time, the file system, the random display name and the
-- clocks are parameters. A text of the protocol is one of `String`; its length is that in bytes, as `size()`.
-- What a handler posts to the server is done later, on the server's strand: `Session` only logs it,
-- and `Server/Push` says what comes of it.
--
-- In the client a signal is a value, and the slots of `LoginBackend` run after the handler that emits it, in the
-- order of the signals; they read nothing of the handler's. A `QVariantMap` of an object is that object, a row of
-- a list is a record. UTF-8, JSON, the trimming of texts, the socket, the clock and the files of pictures are
-- parameters; a number read from JSON is exact below 2^53, as a `double` is. In one command every file can be opened or none
-- can be.
--
-- Not modelled: the texts of error messages and of the server's log; how connections are accepted, and the wait
-- for pending operations when a session ends; the making of a connection to the database; the pages of
-- the client with the models and controllers that only show what the back end signals, and the benchmark.
pub mod Prelude
pub mod Reply
pub mod Client
pub mod Database
pub mod Session
pub mod Server
pub mod Protocol
pub mod Text
