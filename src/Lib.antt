-- ===== src/Lib.antt =====
-- The library distributed_instant_mess: models of the servers of a distributed instant messaging
-- system and of the framework below them, with what is proved of them.
--
-- Net (framework/MyMuduo/src) is the network library. Net/Buffer.antt is Buffer.h and Buffer.cc,
-- Net/Channel.antt is Channel.h and Channel.cc, Net/Poller.antt is EPollPoller.cc, and
-- Net/Connection.antt is TcpConnection.cc. Each function is named as in the source, in snake
-- case: sendInLoop is send_in_loop. A handler returns the connection with the list of its
-- effects. What the kernel answers to readv, write and epoll_ctl is an argument; Net/Poller.antt
-- takes epoll_ctl as a record with the laws of its manual page. The arithmetic of size_t wraps at
-- 2 ^ 64. Net/LoopPool.antt is getNextLoop of EventLoopThreadPool.cc. Net/EventLoop.antt is
-- EventLoop.cc, in which the thread of the loop and the others take turns step by step.
--
-- Log (framework/AsyncLog/src) is the logger. Log/Numbers.antt and Log/Stream.antt are
-- LogStream.cc, Log/FixedBuffer.antt is FixedBuffer.h, and Log/Async.antt is AsyncLogging.cc,
-- where a critical section is one step and the threads take turns in any order. snprintf of a
-- double is a parameter. The loops of convert and convertHex run on fuel, one more than the
-- number, and each round makes the number smaller. Log/File.antt is LogFile.cc; its write loop
-- has one unit of fuel more than there are bytes, and each round of a call that makes progress
-- takes one.
--
-- Chat (ChatServer) is the chat server. Chat/Frame.antt is MsgNode.h and MsgNode.cpp, the bytes
-- of a message; Chat/Reader.antt is the reading half of CSession.cpp, where each completion of
-- async_read_some is a step, and Chat/SendQueue.antt the writing half. A short is its bit pattern
-- below 2 ^ 16, and the length -1 becomes 2 ^ 64 - 1 as a size_t. Chat/Registry.antt holds the tables of CServer.cpp and UserMgr.cpp, with what LoginHandler of LogicSystem.cpp and
-- NotifyKickUser of ChatServiceImpl.cpp do to them. Chat/LogicQueue.antt is the queue of
-- LogicSystem.cpp between the sessions and the thread of the handlers, where a post pushes and
-- notifies in two steps. Chat/Users.antt is how
-- LogicSystem looks a user up, in Redis and then in the database, and Chat/Handlers.antt with its
-- child Requests is its handlers: what each stores, whom it tells and what it answers, in order.
--
-- Gate (GateServer) is the HTTP front: Gate/Url.antt holds UrlEncode, UrlDecode and
-- PreParseGetParam of HttpConnection.cpp; an assertion that fails gives none. Gate/Logic.antt
-- holds the handlers of LogicSystem.cpp that register a user, set a password and log in, with
-- CheckEmail and UpdatePwd of MysqlDao.cpp, and with the questions to Redis, to the database and to
-- the status server as functions.
--
-- Storage holds what the servers use to reach the database. Storage/MysqlPool.antt is the pool of
-- ChatServer/MysqlDao.h, with its check thread as a machine that takes a step whenever it is its
-- turn. Storage/Session.antt is a connection to the database, a parameter with the laws of a
-- transaction, and every call is given the answer of the database, which can be an exception; a call
-- that throws has had no effect, so that a commit whose reply is lost is left out.
-- Storage/Dao holds AddFriend, CreatePrivateChat, AddChatMsg, LoadChatMsg and GetUserThreads of
-- ChatServer/MysqlDao.cpp over it. RegUser is RegUserTransaction of GateServer/MysqlDao.cpp. The
-- clients that read all pages run on fuel, one for each page. Ids of 64 bits become an int there.
--
-- Resource (ResourceServer) moves files. Resource/Disk.antt says what the handlers use of the
-- file system, Resource/Upload.antt is FileWorker and Resource/Download.antt is DownloadWorker of
-- FileWorker.cpp; Redis, base64 and the database are parameters. Resource/Download/Transfer.antt
-- puts the two together: what one client sends another one gets. The client's loop runs on fuel,
-- one for each chunk. Resource/Logic.antt and its children are LogicWorker.cpp, LogicSystem.cpp
-- and FileSystem.cpp: the handlers (Uploads, Handlers), the queues (Workers), who is answered
-- (Served), who needs a token (Token), and the way of the chunks of a file from the requests to
-- the disk (Pipeline). A number that a client sends is taken as not negative; RedisMgr is there
-- an interface, `Store`.
--
-- Redis is RedisMgr.cpp and DistLock.cpp of ResourceServer, which the other servers have as
-- copies. Redis.antt says what hiredis and Redis do, Redis/Manager.antt is the operations with
-- their connections and replies, Redis/Lock.antt the lock of all servers, Redis/Count.antt the
-- number of users on each chat server, Redis/Files.antt what is kept of a file; it fills the
-- interfaces by which Resource/Logic.antt and Resource/Download.antt use it. A call that finds
-- the pool empty waits, and is none; a try for the lock that fails sleeps and is followed by the
-- next, as often as the clock allows, which is the length of a list. The script that releases the
-- lock is run by the commands that it calls, and Redis/Lock/Script.antt says what comes of it. A
-- count is the bit pattern of an int.
--
-- Status is StatusServiceImpl.cpp of StatusServer: the table of chat servers that it reads from
-- the configuration, and the server and the token that it answers. Status/Login.antt takes the
-- token to the chat server.
--
-- A child module of a component holds its proofs: Refine and Queue compare a buffer with a queue
-- of bytes, Interest and System follow the interest list of the kernel, Stream, Drain, History
-- and Lifecycle follow the bytes of a connection, Handover and Order the buffers of the logger,
-- Rolling the log files, Delivery and Bounds what a session reads, Consistent and Runs the tables
-- of the chat server. Wakeup follows the functors of a loop, Encoding and Query the bytes of a
-- URL, Guard the calls to the database, Conservation and Ending the pool of connections, Atomic
-- the transactions, and Whole says that a task is done as a whole; Content and Answer are about
-- an upload, Fetch and Refuse about a download. A module Tests in each part runs its components
-- on small inputs. Balance, RoundTrip, Exclusion and Refine are about Redis, Served, Token and
-- Pipeline about the logic of the resource server, Direct and Answers about the lookups and the
-- handlers of the chat server.
--
-- Not modelled: threads as such, sockets, databases, Redis, ZooKeeper, gRPC and the generated
-- protocol code, all of which the source only calls, and VarifyServer, which is JavaScript.
pub mod Base
pub mod Net
pub mod Log
pub mod Chat
pub mod Gate
pub mod Storage
pub mod Resource
pub mod Redis
pub mod Status
