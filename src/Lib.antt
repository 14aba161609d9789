-- ===== src/Lib.antt =====
-- A model of muduo, a C++ network library of one event loop per thread, with proofs.
--
-- Values. A number is a natural number; `size_t` arithmetic is taken modulo 2^64 where it is done
-- (Base/Size). `none` of an `Option` result is a failed `assert`, a call of LOG_FATAL, or an
-- exception that nobody catches: the program stops. A theorem that a call gives `some` result says
-- that none of this happens.
--
-- Files.
-- - Base: shared names, tests, lists, sizes.
-- - Buffer (muduo/net/Buffer.h, Buffer.cc, Endian.h): the vector and its two indices. `Content` has
--   the contents and the order of the indices, `Room`, `Append`, `Retrieve`, `Prepend`, `ReadFd` and
--   `Ints` the operations against the contents.
-- - Channel (muduo/net/Channel.h, Channel.cc): a descriptor's event masks; `Dispatch` has
--   handleEvent and the callbacks.
-- - EPoll (muduo/net/poller/EPollPoller.cc): the map of channels, their indices and the kernel's
--   interest list, which is a parameter (`Epoll`).
-- - Reactor: what a connection uses of the loop; EPoll/AsReactor fills it.
-- - TcpConnection (muduo/net/TcpConnection.h, TcpConnection.cc): the state machine of a connection
--   with its buffers; user code and the server are parameters (`Callbacks`), the kernel's answers to
--   read and write are arguments.
-- - EventLoop (muduo/net/EventLoop.h, EventLoop.cc): the queue of functors, the wakeup descriptor and
--   quit, as steps of the loop's thread and of the others. `Wakeup` is about wakeups, `Order` about
--   the functors.
-- - EventLoopThreadPool (muduo/net/EventLoopThreadPool.h, EventLoopThreadPool.cc): the loops of a server;
--   `RoundRobin` is about which one a connection gets. What `EventLoopThread::startLoop` returns is a
--   parameter.
-- - TimerQueue (muduo/net/TimerQueue.h, TimerQueue.cc, Timer.h, Timer.cc): the timers of a loop on the
--   loop's thread, with callbacks as functions on the queue. `Invariant` has the agreement of the two
--   sets, `Operations` and `Cancel` adding and cancelling, `Expired`, `Reset` and `HandleRead` what
--   happens at a time, `Armed` the timer's descriptor. Base/PairSet is `std::set` of pairs.
-- - PollPoller (muduo/net/poller/PollPoller.cc): the vector of `pollfd`s, the map and the indices.
--   `Register` is updateChannel, `Forget` removeChannel. Base/Indexed reads and writes lists by index.
-- - Connector (muduo/net/Connector.h, Connector.cc): the attempts to connect, with the functors and
--   timers that they leave in the loop. `Invariant` has the five situations of a connector and the
--   steps, `Steps`, `Safety` and `Reach` that they run through, `TooEarly` a start during a retry.
-- - Http (muduo/net/http/HttpRequest.h, HttpContext.h, HttpContext.cc): the parser of requests, each
--   round of its loop a function. `Bytes` is the parser on byte strings, which `Refine` compares with
--   it; `Line` and `Parse` are about requests as clients write them, `Stops` about termination,
--   `Chunks` about requests in pieces, `BadLine` about refused lines. The rounds of the loop are
--   bounded by a fuel; one more than the bytes in the buffer is enough, since every round but the last
--   takes a line off.
-- - HttpServer (muduo/net/http/HttpResponse.h, HttpResponse.cc, HttpServer.cc): the text of a response
--   (`Printed`), and what the server does with the bytes of a connection, as calls of it: `Answers` for
--   a whole request, `Refuses` for a line that the parser refuses. The callback is a function on any
--   state, and the decimals of snprintf are a parameter.
-- - ProtobufCodec (muduo/net/protobuf/ProtobufCodecLite.h, ProtobufCodecLite.cc): messages with a length
--   before them, a tag and a checksum. `Frame` is about writing one, `Parse` and `Messages` about one
--   round of the reader, `Stream`, `Rejects` and `Returns` about messages in a row, malformed ones and
--   arbitrary bytes. One round more than there are bytes is enough, since a round that continues takes
--   a message off. zlib and protobuf are a parameter (`Libraries`), the callbacks act on any state.
-- - Date (muduo/base/Date.h, Date.cc): days and calendar dates, with the overflow of `int` as a
--   failure. `RoundTrip` starts from a day, `Calendar` from a date; `Steps` has the divisions.
-- - TimeZone (muduo/base/TimeZone.h, TimeZone.cc): times in UTC (`Utc`), the transitions of a zone
--   (`Zone`, `Find`, `Local`) and the reader of zone files (`File` and its children). gmtime_r and
--   timegm are a parameter (`Libc`), and so is whether `&front()` of an empty vector is null. A file is
--   its bytes; sums of `int` and `time_t` are checked for overflow.
-- - LogStream (muduo/base/LogStream.h, LogStream.cc): the text of integers and pointers, the buffer of
--   fixed size and the operators. `Digits` is about numerals in a base, `Convert` about the two
--   conversions, `Stream` about the operators. The loops of the conversions have as fuel one more than
--   the number, which every round makes smaller.
-- - ThreadPool (muduo/base/ThreadPool.h, ThreadPool.cc): the queue of tasks, its mutex and conditions,
--   as steps of the threads. `Wakeups` and `Take` are about the steps, `Reach` about all orders of
--   them, `Stopped` about a pool that is stopped while a thread waits in `run`.
-- The `Tests` modules hold concrete runs.
--
-- Not modelled: the logging but LogStream, the destructors, socket options, the servers and clients
-- (TcpServer, TcpClient, Acceptor), EventLoopThread, the inspector, rpc, and of muduo/base all but
-- Date, TimeZone, LogStream and ThreadPool. Much of that is system calls; the rest has logic of its
-- own that no file here is about yet.
pub mod Base
pub mod Buffer
pub mod Channel
pub mod EPoll
pub mod Date
pub mod EventLoop
pub mod EventLoopThreadPool
pub mod Http
pub mod HttpServer
pub mod PollPoller
pub mod ProtobufCodec
pub mod LogStream
pub mod Connector
pub mod ThreadPool
pub mod TimeZone
pub mod Reactor
pub mod TcpConnection
pub mod TimerQueue
