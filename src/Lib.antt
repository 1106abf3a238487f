-- ===== src/Lib.antt =====
-- IAN: the front server, the cluster link and the schema compiler.
--
-- The parts and how they interact. A front server runs a pool of threads under a main loop, reads its
-- configuration again on a signal, accepts websocket clients (server/front/src/ws) and
-- talks to other servers over cluster connections (server/common/src/cluster). Both kinds of connection
-- queue outbound messages in a MessageQueue (server/common) and run their handlers in a strand: one at
-- a time, each started by the completion of an asynchronous operation. The schema compiler
-- (tools/happy/src) is a program of its own that parses schema files into a syntax tree.
--
-- Message, Message/Fifo, Message/Refinement: Message.hpp, Message.cpp, MessageQueue.hpp and
--   MessageQueue.cpp of server/common. A Message is a pointer that may be null; a queue is a list whose
--   head is the front, with the byte count of a 64-bit size_t.
-- Error: the error codes, and how both connections class them.
-- Cluster/State, Cluster/Connection: server/common/src/cluster/ClusterConnection.hpp and
--   ClusterConnection.cpp. A member of the class is a field; a method or a handler is the function of the
--   same name on the record. An asynchronous call adds an operation to `pending`; `complete` is the
--   handler that such an operation was started with, with the status and the bytes that the library
--   hands to it as arguments. Cluster/Steps takes the executor as a relation: any pending operation may
--   complete next.
-- Cluster/Chunks, Cluster/Frames, Cluster/HandshakeFrames: the bytes that come in, and how they are cut
--   into messages. Cluster/Invariant, Cluster/Safety: the invariant, handler by handler. Cluster/Flow,
--   Cluster/Outbound, Cluster/Executor, Cluster/Order: the outbound messages. Cluster/Channel,
--   Cluster/Delivery: two connections and the bytes between them. Cluster/Handshake: what the TLS
--   handshake leads to.
-- Cluster/Watcher, Cluster/Acceptor, Cluster/Init: ClusterWatcher.cpp, ClusterAcceptor.cpp and Cluster.cpp
--   beside it, which make the connections; Cluster/Reconnect, Cluster/Outage, Cluster/Listening and
--   Cluster/Unheard take their executors as relations.
-- Config/Value, Config/Group: server/common/src/config, over an interface of boost's property trees;
--   Config/Sync on the values and their listeners.
-- AsioPool: server/common/src/AsioPool.cpp. Ssl: Ssl.cpp beside it, as the calls that it makes, and Ssl/Plan
--   on them.
-- Front: the configuration and the clock, of server/front/src/FrontGlobals.cpp. Front/Main: the loop of
--   server/front/src/Main.cpp with the pool and the configuration, as turns of the main thread and of the
--   signal handlers in any order; Front/Threads, Front/Signals, Front/Stopping, Front/Lost, Front/Workers and
--   Front/Room on it.
--   Front/Start: `main` up to that loop, and what the program returns; Front/Program and Front/Returns on it.
-- Ws/State, Ws/Connection: server/front/src/ws/WsConnection.hpp and WsConnection.cpp, in the same way;
--   Ws/RateLimit, Ws/Invariant, Ws/Safety, Ws/Steps, Ws/Flow, Ws/Order on them. Ws/Acceptor: WsAcceptor.hpp and
--   WsAcceptor.cpp beside them; Ws/Limit and Ws/Deaf on it.
-- Happy/Ast, Happy/Reader, Happy/Lexer, Happy/Parser: tools/happy/src/Ast.hpp, Parser.hpp and Parser.cpp,
--   over any StreamReader, a step of the parser being a function of its members. Happy/View relates the
--   buffer to the text that the reader delivers, and Happy/Advance, Happy/Strings, Happy/Endless and
--   Happy/Digits the steps on it. Happy/Blanks, Happy/Skip and Happy/Symbols relate the lexer to
--   functions of that text, and Happy/Tokens, Happy/Words, Happy/Names, Happy/Integers, Happy/Types
--   and Happy/Fields the steps of the grammar that take a symbol, a name, a type or a field.
--   Happy/Quotes, Happy/Places and Happy/Fronts are on the strings, the lines and the symbols of a text;
--   Happy/Ends has what it is for a step to end, and its children go through the parser with it, up to
--   Happy/Ends/Whole.
--   Happy/Number, Happy/Scans, Happy/Literals, Happy/Values: `parse_number`, over an interface of the
--   arithmetic of double.
-- Happy/Print: tools/happy/src/AstPrint.hpp. Happy/Printed: what the parser makes of its output.
-- Happy/Main: tools/happy/src/Main.cpp, over an interface of `fread`; Happy/Reports on it.
-- Prelude: the names that all share; `Run` is the outcome of code that may call through a null pointer.
-- Message/Tests, Cluster/Tests, Cluster/PeerTests, Config/Tests, Ssl/Tests, Front/Tests, Front/StartTests,
--   Ws/Tests, Happy/Tests, Happy/MainTests, Happy/Ends/Tests: runs on concrete states, the parser's over
--   Happy/Samples.
--
-- Bounds and fuel. Sizes in a frame are taken modulo 2^32, and sizes in a queue and in the rate limiter
-- modulo 2^64, as the code does. The loop of `on_read` has a round more than there are bytes in the
-- buffer, and each round that goes on consumes one at least. The loop of `peek_at` has a round for each
-- byte that is missing, and each round that goes on adds one at least. The loops of the parser take
-- their number of rounds as an argument, since one of them need not end; where every string is closed, a
-- round more than there are bytes in the text is enough for all of them. Three ints are natural numbers
-- without a bound: the counter of messages of a websocket connection, which overflows where the limit is
-- the largest int, and the offsets into a string and into the digits of a number, which overflow behind
-- 2^31 bytes. A negative timeout in the configuration is taken for 0. The number of threads that the system
-- makes for an instance of the pool is an argument, and stays the same while the program runs; where more
-- are wanted, which a negative number is read as, the exception of `std::thread` leaves `main`.
--
-- Not modelled. Boost.Asio, Boost.Beast and OpenSSL: what they do shows in the statuses, the bytes and
-- the order of the completions, which are arbitrary; the timers of a websocket connection complete
-- like any other operation. The exceptions of calls on a socket or of an allocation that fails. Logging.
-- The mutex of the configuration's listeners, an error of the schema compiler's input, server/common's
-- Platform.cpp, and the programs whose main is empty.
pub mod Prelude
pub mod Error
pub mod Message
pub mod Config
pub mod Ssl
pub mod AsioPool
pub mod Cluster
pub mod Front
pub mod Ws
pub mod Happy
