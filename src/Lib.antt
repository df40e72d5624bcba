-- ===== src/Lib.antt =====
-- AsioNetwork: servers on Boost.Asio that exchange length-prefixed messages over TCP.
--
-- A session reads chunks from its socket into a fixed buffer. HandleRead cuts them into a header and
-- a message, across chunks, and hands complete messages on; Send queues nodes, and HandleWrite starts
-- the write of the next. The server keeps its sessions in a map from which they erase themselves, and
-- in LogicServer one worker thread takes the messages of all sessions from a queue. IOThreadPoolServer
-- and IOContextPoolServer are LogicServer again, the first with a strand for each session, and both
-- with a pool of threads that they do not use.
--
-- The files and what they model:
--   Base        numbers, lists and C++ integers, the lemmas that the parts share.
--   Wire        Memory: blocks of bytes and copies that may leave them. Host: the byte order of a
--               machine, a parameter. Exec: runs that may be undefined or throw. Node:
--               LogicServer/MsgNode.h and MsgNode.cpp, and the MsgNode of AsyncEchoServer2/Session.cpp.
--   Framing     HandleRead's loop (LogicServer/CSession.cpp, AsyncEchoServer2/Session.cpp). Protocol is
--               what the loop is generic in, Stream the specification as a byte-by-byte machine,
--               Reader the loop itself, with Reader/Agrees, Reader/Refine and Reader/Loop the
--               refinement and Reader/Chunks runs over many chunks.
--   Sender      the queue of Send and HandleWrite; Sender/Order its invariant.
--   Logic       LogicServer/LogicSystem.cpp: Logic/Order the order of dispatch, Logic/Wakeup the
--               condition variable as interleaved steps, Logic/Wakeup/Lost its lost wakeup.
--   Server      LogicServer/CServer.cpp.
--   Session     LogicServer/CSession.cpp: Format the header, Receive and Send the two ends, Nodes what
--               Send queues, Lifetime what HandleRead does to the server, Faults inputs without a
--               defined run, Hello the callback of LogicServer/LogicSystem.cpp.
--   Echo        AsyncEchoServer2/Session.cpp as an instance of the framing loop, with the replies.
--   Json        JsonServer/Session.cpp: HandleReadHead and HandleReadMsg.
--   Pool        IOContextPoolServer/AsioIOContextPool.cpp and IOThreadPoolServer/AsioIOThreadPool.cpp;
--               Pool/Mains is how the main functions of the two servers end.
--   Http        BeastHttpServer/BeastHttpServer.cpp: the response to a request, the counter,
--               and in Http/Connection the life of a connection.
--   Sync        SyncServer/server.cpp: write_to_socket and session, and in Sync/Accepts server and main.
--               Sync/Setup is the functions of server.cpp and client.cpp that open sockets, Sync/Client
--               main of SyncServer/client.cpp.
--   Mirror      AsyncEchoServer/Session.cpp: a session that reads and sends in turn; in Mirror/Server
--               AsyncEchoServer/CServer.cpp, with all its sessions.
--   Json/Framed JsonServer/Session.cpp: HandleRead, another instance of the framing loop.
--   Async       AsyncServer/Session.cpp: Writes and Reads are its two directions.
--   Client      tools/ClientTlvFormat/client.cpp, tools/JsonSerializeClient/JsonClient.cpp,
--               tools/ProtobufSerializeClient/client.cpp, tools/ClientDriveByThread.cpp and
--               tools/checkEndian.cpp. Client/Served is a client and LogicServer together.
--   Strand      IOThreadPoolServer/CSession.cpp: HandleRead on its strand. Strand/Follows is what holds
--               at any time, Strand/Queued and Strand/Keeps the steps, Strand/Leaves a run, and
--               Strand/Posts and Strand/Shared that a session does the same whatever others post.
--   Fleet       IOThreadPoolServer/CServer.cpp and LogicSystem.cpp: many such sessions and the worker.
--               Fleet/Isolated is what holds at any time, Fleet/Served what comes of a run,
--               and Fleet/Answers what LogicServer/LogicSystem.cpp answers to it.
--   Service     The same with the callback of the worker, Send and HandleWrite: the server as a whole.
--               Service/Waits, Service/Begun, Service/Questions, Service/Writing and
--               Service/Answered are the parts of the invariant, Service/Serves and Service/Runs its
--               steps, and Service/Clients what the peers get.
--   Loop        IOContextPoolServer as a whole: the one thread of main that runs all handlers, without a
--               strand, and the worker. Loop/Simulates is that Service does the same, Loop/Single that
--               no two handlers run, from Loop/Moves and Loop/Counts, and Loop/Clients what peers get.
--   Server/View The map of sessions of LogicServer/CServer.h, up to the order of its entries.
--   Singleton   LogicServer/Singleton.h: GetInstance as interleaved steps.
--   Tests       runs at small inputs.
--
-- How the code is read. A `short` is its bit pattern, a number below 2 ^ 16, which `signed16` reads;
-- an `int` that may be negative is `ℤ`, and its conversion to `size_t` is `to_size`. A copy outside
-- its block, a null pointer and `front()` or `pop()` of an empty queue are `undefined`, an exception
-- is `throws`. Memory is assumed not to run out. A handler that holds a mutex for its whole run is one
-- step, and so is any other handler but HandleRead in Strand, which takes a step for each round. The
-- loop of HandleRead runs on fuel, as much as there are bytes: each round takes one at least. The
-- loop of write_to_socket runs for as many rounds as are asked for.
--
-- Parameters: the byte order functions of Boost (with the law that they make the wire big-endian),
-- the codec of MsgData, jsoncpp, how a machine lays out its numbers, what a socket takes of what it
-- is offered and gives of what is there, what the string of a caller of WriteToSocket in AsyncServer
-- holds when it is read, whether the join of the worker returns where a program ends, and the callbacks
-- of the logic system. The bind expressions of AsyncServer/Session.cpp that name no object, and cannot
-- be compiled, are read as the others of that file.
--
-- Not modelled: Boost.Asio itself, the connecting, the threads and the output of the clients in tools,
-- tools/ClientTestIOCandIOT/client.cpp with its rounds, the main functions of the other servers, the
-- generated protobuf and gRPC code, logging, and the freeing of memory. What Send, the message nodes, the callback and the accept handler do in
-- IOContextPoolServer and IOThreadPoolServer is the text of LogicServer's. In Service and Loop every
-- write takes all that it is offered; a HandleWrite with an error is in Sender only.
pub mod Base
pub mod Async
pub mod Wire
pub mod Framing
pub mod Http
pub mod Json
pub mod Logic
pub mod Sender
pub mod Client
pub mod Echo
pub mod Fleet
pub mod Mirror
pub mod Pool
pub mod Server
pub mod Strand
pub mod Service
pub mod Loop
pub mod Singleton
pub mod Session
pub mod Sync
pub mod Tests
