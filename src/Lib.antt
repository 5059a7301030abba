-- ===== src/Lib.antt =====
-- ThreadLibrary: a verification library for the C++ framework of this repository, a reactor network
-- library with logging and threads. Paths below are from the repository's root.
--
-- The program. Each thread has an EventLoop, which polls the descriptors of its Channels through a Poller
-- and then runs the tasks that were queued for it. A TcpConnection owns a Channel, an input and an output
-- Buffer; an Acceptor and a TcpServer make connections of incoming sockets, a Connector and a TcpClient
-- of outgoing ones; an EventLoopThreadPool runs one loop per thread. A log line is put together in a
-- LogStream, handed to AsyncLogging, and written by its thread to a LogFile. framework/thread has the
-- mutex, condition, latch, queues and thread pool that all of these use.
--
-- The files.
--   Prelude: names of the libraries, Boolean tests, lists and slices, 64-bit words, integers, and Outcome,
--     the result of a call: a value, the abort of LOG_FATAL, an exception, or a fault (a failed assertion
--     or an access out of range).
--   Net/Endian, Net/Buffer: framework/net/include/Endian.hpp and framework/net/src/Buffer.cpp. A buffer is
--     its vector and two indices. Buffer/Integers has the integers in network order and ReadFd;
--     Buffer/Contents, Fifo, Reads and Search have the proofs, and Buffer/Refines the queue of bytes that a
--     buffer implements.
--   Net/Channel: framework/net/src/Channel.cpp. HandleEvent gives the callbacks in the order of the calls.
--   Net/Poller: framework/net/src/Poller.cpp. The entries of poll(2), the map, and the channels behind it;
--     Poller/Consistent and Poller/Remove have the invariant.
--   Net/TcpConnection: framework/net/src/TcpConnection.cpp. A handler is a function from a connection to
--     an Outcome; what it does outside of the connection is recorded in order. TcpConnection/Delivery has
--     HandleWrite again and again.
--   Net/Connector: framework/net/src/Connector.cpp. Its tasks are queued in the model; Connector/Events
--     has what can happen to it, Connector/Runs and Connector/Reports the proofs.
--   Net/EventLoop: framework/net/src/EventLoop.cpp, the queue of tasks; EventLoop/Loop has Loop and Quit, with
--     one Round of reports and calls after the other, and EventLoop/Channels the three calls that go on to
--     the poller, with the switches of a Channel in front of them. EventLoop/Threads is the constructor and the
--     destructor, with the loop that each thread has.
--   Net/TcpClient: framework/net/src/TcpClient.cpp, on top of Connector and TcpConnection.
--   Net/InetAddress, Net/Socket: framework/net/src/InetAddress.cpp and framework/net/src/Socket.cpp, by what
--     they make of the system's answers; Socket/Answers puts the Acceptor on top.
--   Net/EventLoopThreadPool, Net/TcpServer, Net/Acceptor: framework/net/src/EventLoopThreadPool.cpp,
--     TcpServer.cpp and Acceptor.cpp. EventLoopThreadPool/Starts puts the pool of loops on the thread pool,
--     and TcpServer/Start the server on that and on its acceptor.
--   Base/Convert, Base/WriteFile, Base/ReadFile: framework/base/src/utils.cpp, and the two classes of
--     framework/base/src/FileUtils.cpp.
--   Log/FixedBuffer, Log/LogStream, Log/AsyncLogging, Log/LogFile, Log/Logging: framework/log, one file for
--     each class. Logging/Statements has a whole log statement, from its macro to the output function,
--     LogFile/Names the names of a log's files, and AsyncLogging/Runs the callers and the writer thread in any
--     order.
--   Threads/ThreadPool, Threads/CountDownLatch, Threads/MutexLock, Threads/Condition, Threads/BlockingQueue,
--     Threads/Thread, Threads/CurrentThread: framework/thread. ThreadPool/Workers has the threads of a pool step
--     by step, ThreadPool/Wakeups its conditions, and ThreadPool/Joins its Thread objects. MutexLock is a step
--     relation for any number of threads between the statements of lock, unlock and wait. A Condition is how
--     many threads sleep and how many were woken and have yet to go on; a thread may also wake on its own.
-- A file named for a component has its definitions, the files below it have the proofs, and Tests the
-- runs at concrete inputs.
--
-- Conventions. Numbers are natural numbers; size_t wraps around at 2 ^ 64 (`add64`, `sub64`), and a vector
-- grows to 2 ^ 63 - 1 bytes at most, beyond which the standard library throws. `convert` runs on a fuel of
-- 20 digits and `convertHex` on one of 16: a 64-bit integer has no more, and the round trips are stated
-- for every number of that many digits. The loops of ReadFile run on a fuel of more than the bytes asked
-- for, since each turn but the last reads at least one. The answers of the system (read, write, poll,
-- accept, fopen, fwrite, time) are arguments, as is whether the caller is in the loop's thread. What a
-- mutex protects is one step; a thread that waits for a condition makes none until it is woken. Only
-- Threads/MutexLock goes below that.
--
-- Not modelled: a task that quits its loop; a failure of socket(2) but for the Connector; a lack of memory for
-- anything but Buffer and readToString; what a thread does between the answers of pthread and its critical
-- sections; the race of the loop threads for the vector of loops, where each turn of a worker is one step;
-- HandleError and the default callbacks of a TcpConnection, which log; and BoundedBlockingQueue, which uses a
-- member that it does not declare and cannot be instantiated.
pub mod Prelude
pub mod Threads
pub mod Base
pub mod Log
pub mod Net
