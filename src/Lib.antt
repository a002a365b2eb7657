-- ===== src/Lib.antt =====
-- chtho, a TCP network library in C++ in the style of a reactor: an event loop for each thread asks
-- a poller which descriptors are ready and calls the channels of those; on top of it stand timers,
-- buffers, connections, a client's connector, a pool of loops and a small HTTP server; beside it a
-- pool of threads and an asynchronous log.
--
-- Parts and files:
-- - Prelude: numbers, lists, machine words (`add_size` and `sub_size` wrap at 2 ^ 64), and `Result`,
--   in which a failed assertion, an exception, an access outside an array, a read through a null
--   or dangling pointer and LOG_SYSFATAL are faults.
-- - Buffer is chtho/net/Buffer.h and Buffer.cpp: the vector, the two indices, growing and moving,
--   integers in network order (Ints), the search for line ends (Scan) and readFd (ReadFd).
-- - OrderedSet is the std::set of pairs that chtho/net/TimerQueue.cpp uses, and TimerQueue that
--   file with Timer.h: the two sets, the heap of timers by address, and what callbacks may do while
--   they run (add and cancel timers).
-- - Poller is chtho/net/poller: Poller.Poll is Poll.cpp, with poll(2) as its answer; Poller.EPoll is
--   EPoll.cpp, with the kernel's interest list as a parameter that has what epoll_ctl(2) documents.
-- - Channel is chtho/net/Channel.cpp as its owner sees it; Poller has the fields of Channel.h that
--   the pollers use.
-- - TcpConnection is chtho/net/TcpConnection.cpp: states, buffers, the functions queued in the loop
--   and the bytes that write(2) has taken. Stream is sendInLoop, Writable is handleWrite, Run whole
--   runs of both, Close the end of a connection, and Dispatch the events of its channel, which call
--   its functions. The callbacks of the user are parameters.
-- - Connector is chtho/net/Connector.cpp: the attempts, their delays and what becomes of sockets.
-- - EventLoopThreadPool is chtho/net/EventLoopThreadPool.cpp: the choice of a loop.
-- - EventLoopThread is chtho/net/EventLoopThread.cpp with chtho/threads/Thread.cpp and ThreadData.h:
--   the thread of a loop, and the thread that starts it, waits for it and destroys it.
-- - MutexLock is chtho/threads/MutexLock.h with Condition.h and RevokeGuard.h: the holder of a mutex.
--   CountDownLatch is chtho/threads/CountDownLatch.cpp: the count and the threads that wait for it.
-- - Http is chtho/net/http: the requests and their lines (Http, Headers, RequestLine), the loop of
--   HTTPContext::parse (Context, with the same loop over plain bytes as its specification), the
--   text of a response (Response), and HTTPServer::onMsg and onReq (Server).
-- - EventLoop is chtho/net/EventLoop.cpp: the phases of the loop, the queue of functions and the
--   wakeups, with other threads at any time.
-- - TcpServer is chtho/net/TcpServer.cpp: the connections by name, and the functions that pass
--   between the main loop and the loops of the connections; Stages has the stages of a connection.
-- - Acceptor is chtho/net/Acceptor.cpp, with the errors of Socket::accept.
-- - InetAddr is chtho/net/InetAddr.cpp: addresses, their texts and ports; Socket is the functions of
--   chtho/net/Socket.cpp that it uses, and isSelfConnect.
-- - TcpClient is chtho/net/TcpClient.cpp: the connection of a client and its connector.
-- - FixedBuffer is chtho/logging/FixedBuffer.h; LogStream is LogStream.h and LogStream.cpp beside it:
--   the conversion of integers (Convert) and the room that it asks for (Room).
-- - AsyncLogging is chtho/logging/AsyncLogging.cpp: the hand-over of buffers.
-- - AppendFile is chtho/logging/FileUtil.cpp, and LogFile chtho/logging/LogFile.cpp: the bytes that
--   fwrite(3) takes for the files of a log, and when it begins a new one. What stdio keeps back and
--   then fails to write is not seen.
-- - Logger is chtho/logging/Logger.h and Logger.cpp: the lines of the log (Statements is the macros,
--   Reference the line that a statement describes). SourceFile is chtho/logging/SourceFile.h, and
--   CurrentThread is chtho/threads/CurrentThread.cpp: what a thread keeps of its numbers. Timestamp and
--   TimeZone are the parts of chtho/time that the log uses.
-- - ThreadPool is chtho/threads/ThreadPool.cpp: the queue of tasks (Fifo), and its threads with what
--   wakes them (Threads).
--
-- How they interact: a connection changes the events of its channel, which the event loop passes to
-- the poller; the poller's list of active channels makes the loop call the channel, and that the
-- connection; a connection reads and writes through two buffers; timers bring back the connector.
-- The server gives each connection a loop of the pool, the client gets its connection from the
-- connector, and the HTTP server reads the input buffer of a connection and sends through it.
-- What runs in the loop thread is a function from a state to a Result; what other threads may do
-- at any time is a sequence of steps, one for each critical section.
--
-- Bounds: a vector has at most 2 ^ 63 - 1 bytes, so theorems on buffers ask that what is put in
-- fits below that. `events_` of a channel is kept as its two flags in Channel, and as a number
-- below 2 ^ 16 in Poller. Most loops go down a list. Three run on fuel, and return none where it
-- is spent: the loop of parse, for which one more than the readable bytes is enough
-- (Http.Context.Ends), since each turn that goes on takes a line end; the loop of convert, for
-- which the number of digits is enough (LogStream.Convert), 20 for 64 bits and 10 for the number
-- of a line; and the loop of AppendFile::append, for which one more than the bytes of the line is
-- enough (AppendFile.Taken). The numbers of a server's connections are below 2 ^ 31, where its
-- `int` ends.
--
-- Not modelled: the system calls themselves, the functions of Socket that only make one of them,
-- the errors of pthread, the names that log files get, the text of times in Timestamp::toString,
-- and the destructors of the loop, the server and the client. The decimal numbers in the names of
-- connections and in addresses, the date and the numbers of the process and the thread in a line
-- of the log are the result of snprintf(3), and the texts of addresses those of inet_ntop(3); both
-- are parameters. So is whether fopen(3) succeeds, and what the loop of a connector does with a
-- channel that was taken out of it before. Times are not before the epoch.
pub mod Prelude
pub mod Buffer
pub mod OrderedSet
pub mod TimerQueue
pub mod Poller
pub mod Channel
pub mod AppendFile
pub mod LogFile
pub mod TcpServer
pub mod TcpClient
pub mod Acceptor
pub mod MutexLock
pub mod CountDownLatch
pub mod EventLoopThread
pub mod TcpConnection
pub mod AsyncLogging
pub mod EventLoopThreadPool
pub mod Connector
pub mod Http
pub mod ThreadPool
pub mod EventLoop
pub mod FixedBuffer
pub mod LogStream
pub mod Timestamp
pub mod TimeZone
pub mod CurrentThread
pub mod SourceFile
pub mod Logger
pub mod Socket
pub mod InetAddr
