-- ===== src/Lib.antt =====
-- node-ipc: inter-process messages over local sockets, TCP, TLS and UDP.
--
-- The program turns events into frames (JSON and a delimiter), writes them to sockets, and cuts what
-- arrives into frames again. A client keeps one socket at a time and connects again when it closes; a
-- server keeps many. Both read through a parser, which the configuration chooses.
--
-- Files and the code that they model (paths from the repository's root):
--   Base, Base/*       lists, tests on numbers, and names of the libraries.
--   Text, Text/*       JavaScript strings as lists of UTF-16 code units; indexOf, slice, byteLength,
--                      toLowerCase.
--   Outcome            exceptions: a method runs on its state and returns or throws.
--   Json, Json/*       JSON values, JSON.stringify and JSON.parse, written after their standard for
--                      objects, arrays, strings, whole numbers, booleans and null.
--   Config             entities/Defaults.js (Defaults, getSocketRoot, safePathSegment, getIPType).
--   Framing            the loops of Parser.read and Parser.push of entities/EventParser.js.
--   Framing/Split      what cutting a stream means; push computes it.
--   Framing/Chunks     streams that arrive in chunks.
--   Parser             entities/EventParser.js: the four classes, encode, validateType,
--                      assertFrameSize.
--   Parser/Create      the constructors and createParser.
--   Parser/Contained, Parser/Contained/Reads, Client/Contained, Server/Contained  which exceptions a read
--                      throws, and what leaves the handlers of data.
--   Parser/Reading     read, push, parse, decode, and entities/MessageParser.js.
--   Tls                entities/TLS.js, with fs.readFileSync as a parameter.
--   Tls/Verification   which options check the other side.
--   Client             dao/client.js: fields and constructor (new_client).
--   Client/Connection  connect, connectionOptions, connected, closed, the callback of the retry timer,
--                      and what services/IPC.js does to a client that it drops (drop_client).
--   Client/Receiving   receive*, dispatch*, the message timer, handleReadError, protocolFailure.
--   Client/Sending     emit*, sendQueued, writeDirect, writeGuarded.
--   Client/Events      what happens to a client (Event), one step for each (step), and histories.
--   Client/Steady, Client/Steady/*, Client/Backlog, Client/Retry, Client/Retry/*, Client/Dropped  what
--                      the steps leave alone, what sockets have to write, the retry timer, and clients
--                      that were dropped.
--   Server             dao/socketServer.js: fields, constructor, selectTransport.
--   Server/Sockets     addSocket, peer, receiveDatagram, removeSocket, stop.
--   Server/Receiving   receive*, dispatch*, the message timer, handleReadError, protocolFailure.
--   Server/Sending     emit*, broadcast*, writeStream*, writeDatagram*, sendDatagram*.
--   Server/Start       start, startServer, startDatagramServer, prepareSocketRoot, socketPathInRoot,
--                      unlinkSocket, with node:path and the file system as parameters.
--   Server/Events      what happens to a server (Event), one step for each (step), and histories.
--   Server/Steady, Server/Steady/*, Server/Listing, Server/Listing/*, Server/Backlog  what the steps leave
--                      alone, the list of sockets, and what sockets have to write.
--   Server/Peers, Server/Datagrams, Server/Files, Server/Assured  the peers of datagrams, messages to
--                      all of them, and what has been checked of the file system.
--   Service            services/IPC.js: the object IPC, with its clients by id.
--   Service/Members    the getters and setters of IPC.
--   Service/Arguments  how serve, serveNet, connect and connectNet sort out their arguments.
--   Service/Connecting connect, connectNet, disconnect.
--   Service/Serving    serve, serveNet.
--   Service/Log        log.
--   Service/Overloads  the forms of the arguments of serveNet.
--   Plan               benchmark/competitors/plan.js: the order in which a benchmark runs its subjects.
--   Plan/Spans, Plan/Orders, Plan/Balance  the subjects in an order, and the places of a subject.
--   Interop            rust/node-ipc/interop/node-peer.js: constants, options and createIPC.
--   Interop/Arguments  its parseArguments and parseInteger.
--   Interop/Payload    its validatePayload.
--   Interop/Responder  its runServer: one function for each handler.
--   Interop/Window     its runPhase: slots, fillWindow, onResponse, onDrain, finish and fail.
--   Interop/Responder/Serving, Interop/Responder/Rounds  requests that come in one after the other, and
--                      its runClient with the server at the other end.
--   Interop/WireBytes  its wireBytesForPhase; the frames that it counts are in Interop/WireBytes/Frames, and
--                      the rounding of its arithmetic in Interop/WireBytes/Rounding.
--   Interop/Decimal, Interop/Ranges, Interop/Responder/History, Interop/Window/*  decimals, the ranges of
--                      the options, histories of the server, and phases: the order of the requests
--                      (Order), the loop (Filling), one event (Progress) and histories of events
--                      (Completion).
--   Demo, Demo/Tracing, Demo/Waiting  rust/node-ipc/examples/nodeRustInterop/node-peer.js: expectMessage and
--                      configuration; TracingParser and visibleFrame; runServer, waitForConnect and
--                      waitForPong.
--   Delivery, Delivery/*  a client and a server together: what is emitted, and what is published.
--   Pages, Pages/*     docs/scripts/generate-test-pages.mjs: escapeHTML, the routes (Pages), the files of the
--                      site and what writeOutputs and checkOutputs do to them (Files), buildOutputs and
--                      generate (Building), with the templates as a parameter.
--   Tests, Tests/*     runs on concrete inputs.
--
-- Outside the code: sockets, timers, subscribers (and their reset) and js-queue are effects
-- (Client.Effect, Server.Effect) and events (Client.Events.Event, Server.Events.Event); files and the
-- platform are parameters. What the subscribers of messages, of `data` and of the `error` of a protocol failure
-- throw is a field of the state (subscribers), which the application may set at any time: a function of all
-- that has happened. Subscribers of other events (connect, disconnect, destroy, start, close,
-- socket.disconnected, and errors of sockets) are taken to return, and none calls a client or a server back
-- from inside an event. `publish` throws for a type that is no string, as event-pubsub does.
-- `writableLength` counts a string that waits by its UTF-16 units, as a net.Socket does.
--
-- Bounds: the loops of Framing run on fuel, one more round than the text has units. Each round takes a
-- non-empty delimiter off, and Framing/Split shows that the loop ends by itself before the fuel does.
-- The fuel of writeAllDatagrams is the depth of the stack: that function can call itself without end.
-- The loop of runPhase has a round for each request, and stops by itself; a phase is driven to its end by
-- as many events as Interop/Window/Completion computes.
-- The loop of wireBytesForPhase has at most `count` rounds, since each raises the start of its range.
-- A number in a configuration is a whole number, Infinity, or anything else (Config.Amount). The lengths of
-- strings and buffers are far below 2^53, so sums of them are exact; wireBytesForPhase, which multiplies,
-- rounds by a parameter that is exact on safe integers, and williamsOrder refuses a block that is none.
--
-- Not modelled: where the log is written, and helpers/delay.js. Numbers in JSON that are not whole, and
-- properties that Object.prototype gives to every object, are left out. The other examples, the templates
-- of the pages, the script of the site in a browser and its validation, the other benchmarks and what
-- interop/node-peer.js reports are no part of the library's own logic.
pub mod Base
pub mod Text
pub mod Outcome
pub mod Framing
pub mod Json
pub mod Config
pub mod Parser
pub mod Tls
pub mod Client
pub mod Server
pub mod Delivery
pub mod Service
pub mod Plan
pub mod Pages
pub mod Interop
pub mod Demo
pub mod Tests
