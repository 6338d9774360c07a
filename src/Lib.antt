-- ===== src/Lib.antt =====
-- CorReactor: a coroutine reactor in C++ (fibers, a scheduler, epoll, timers, sockets) with the byte
-- stream that its clients serialise with. Each file names the source it models.
--
-- ByteArray.antt is include/bytearray.h and src/bytearray.cpp: a chain of blocks of equal size, a
-- position, and a pointer to the block of the position. A block pointer is the index of a block and
-- `none` is null; memory that was never written holds `garbage`. `write`, `read`, `set_position`,
-- `add_capacity` and the rest are the member functions of the same names, on an explicit state, with
-- std::out_of_range and a null dereference as values of `Result`. ByteArray/ByteOrder is
-- include/endian_cpp.h; ByteArray/Fixed, Varint, Zigzag and Strings are the writeF*, readF*,
-- write*int*, read*int* and *String* members. ByteArray/Invariant holds the invariant, Capacity,
-- Write, Read and Position what each member does on an array that satisfies it.
-- Loops run on fuel: the bytes left for write and read (every round takes at least one, since a
-- block is not empty), the number of blocks for setPosition, ten groups for a varint; the theorems
-- say that the calls end with a value.
-- Sizes are unbounded, since no array comes near 2 ^ 64 bytes, but differences of sizes wrap.
-- ByteArray/Views is getReadBuffers and getWriteBuffers, with an iovec as a view of a block.
-- Not modelled: toHexString, and reading and writing files.
--
-- Timer.antt is include/timer.h and src/timer.cpp. A timer is its address, the manager holds the
-- timers by address and the std::set as the list in its order. The time and fresh addresses are
-- arguments, 64-bit sums wrap, and a callback is a number. Every public call holds the manager's lock,
-- so a call is a step. Timer/Order and Ordered are the comparator and the set, Invariant the calls
-- of a client, Due and Expiry listExpiredCb, Next getNextTimer and the clock.
--
-- IoManager.antt and IoManager/Calls are include/iomanager.h and src/iomanager.cpp: the contexts of
-- the descriptors, with addEvent, delEvent, cancelEvent, cancelAll, and what idle does with an event
-- that epoll reports. epoll_ctl is an argument of every call; a failed VERSION04_ASSERT is a value of
-- `Result`; what is handed to a scheduler is collected in a list. A call holds the context's lock, so
-- it is a step. The loop of addEvent has fuel for two rounds, which is enough for a positive
-- descriptor. IoManager/Counting is the invariant, Growing the contexts, Removing, Adding and
-- Registering the calls. IoManager/Idle is a round of idle with tickle and stopping, on the timers of
-- Timer.antt and the scheduler of Scheduler.antt: the answers of epoll_wait and write are arguments,
-- and so is what stopping reads of members that other threads change meanwhile. A list of answers
-- that ends while every call was interrupted is a round that still waits. Waiting, Dispatch, Reports
-- and Rounds are its timeouts and what it does with timers and events. The constructor and the
-- destructor are not modelled.
--
-- FdManager.antt is include/fd_manager.h and src/fd_manager.cpp: FdCtx and the vector of contexts,
-- with fstat as an argument; FdManager/Lookup is what `get` finds.
--
-- Scheduler.antt is include/scheduler.h and the scan of `run` in src/scheduler.cpp. Scheduler/Workers
-- is the loop of `run`: each thread is a worker in a phase of its round, and a run is a list of
-- events, in each of which a worker takes its next step, a task is scheduled or stop sets a flag. The
-- counter of active threads, the look at a fiber that came back, and each of the four reads of
-- `stopping`, which holds no lock, are steps of their own; idle is Scheduler::idle, which IOManager
-- overrides. The state in which a fiber leaves is an argument of the event. Picking is the scan,
-- Counting the counters, Stopping what `stopping` answers, Racing an interleaving of two threads.
-- Scheduler/Lifecycle is the constructor, start, stop and the destructor on the thread that owns the
-- scheduler; `run` on the root fiber, which may fail an assertion or throw, and what `stopping` reads
-- are arguments of stop. Joining and Owning are what a stop leaves and a whole life.
--
-- Fiber.antt is include/fiber.h and src/fiber.cpp: the states of fibers and which one runs, without
-- the machine contexts, the destructor and the counters. Fiber/Switching follows a fiber from the
-- switch to it until it yields or ends.
--
-- Hook.antt is include/hook.h and src/hook.cpp: system calls during which other fibers run. The
-- original calls are the list of their answers; each wait of a fiber calls addEvent of IoManager/Calls
-- on the IOManager as it is then, whose failed assertion ends the call, and says whether its timer
-- fired. Hook/Calls are the sleeping calls, on the timers of Timer.antt, and socket, connect, accept,
-- read, write and close, on the descriptors of FdManager.antt and the events of IoManager.antt;
-- Hook/Flags is fcntl, ioctl and setsockopt. do_io recurs on the waits, and a call whose answers or
-- waits are used up is one that still waits. Retrying, Timeouts, Nonblock and Closing are what the
-- calls do.
--
-- Http.antt is include/http/http.h and src/http/http.cpp: the tables of methods and statuses.
-- Http/CaseOrder is the comparator of the maps, which stand in OrderedMap.antt; Http/Messages are
-- HttpRequest and HttpResponse and their members, with boost::lexical_cast as an argument; Http/Dump
-- is `dump`, where a number of at most 20 digits is printed by a loop on fuel for 20. Methods and
-- Headers are what the tables and the maps return. Framing, Lines, Clean and Reading describe a
-- message as its lines, with a reader that splits at CRLF. Http/Parser is src/http/http_parser.cpp
-- with the C functions around the grammars in src/http/http11_parser.rl and httpclient_parser.rl: what
-- Ragel generates from the grammars is a parameter, which gives the callbacks of a run and how far it
-- reads; Parsing and Consuming are what the callbacks make of a request, of a response and of the
-- buffer.
--
-- Address.antt is include/address.h and src/address.cpp: IPv4 and IPv6 addresses, operator< and
-- operator== on the bytes of a socket address, and the node and service that Lookup takes from a host. Bitwise
-- operations are on words of a fixed width, and a shift by the width is undefined. CountBytes has fuel for
-- 32 rounds, one for each bit. Address/Words, Subnets and Networks6 are masks, Order and Hosts
-- the rest. The text of IPv6 addresses, Unix addresses, and what getaddrinfo and getifaddrs are called
-- for, are not modelled.
--
-- Env.antt is include/env.h and src/env.cpp, with Dirname and Basename of src/util.cpp: the command
-- line as a list of words, the options as an ordered map. Env/Arguments is init, Paths the names of
-- files. Environment variables, printing and the file system are not modelled.
--
-- Socket.antt is include/socket.h and src/socket.cpp: a socket object, on a state with the calls that
-- it makes as operations (`Net`), since hooks decide at run time what they are. Socket/Timeouts goes
-- through the hooked setsockopt of Hook/Flags instead. Opening counts descriptors by two counters
-- that follow the calls, Runs, Connecting and Accepting are the calls of a client, Transfers the
-- sending and receiving, Loopback a network for runs. Not modelled: dump, cancelRead, cancelWrite and
-- cancelAccept.
-- TcpServer.antt is include/tcp_server.h and src/tcp_server.cpp on those sockets; TcpServer/Binding is
-- bind. A socket whose last pointer goes is closed by its destructor, and that is written out; which
-- sockets a task still points to is an argument of bind.
--
-- Config.antt is include/config.h and src/config.cpp: variables with their listeners, the table of
-- names, and what a YAML document sets. Conversions, equality of values and the YAML library are
-- arguments, and a document is a tree. Config/Variables is Create and Lookup, Loading and Listing
-- LoadFromYaml. Not modelled: the conversions of containers and the reading of files.
--
-- Not modelled: logging (controllogger), which hands its text to the JSON, YAML and spdlog libraries;
-- the wrappers of pthreads (thread.h) and of the file system and the clock (util); daemon.cpp, which
-- forks and waits for processes; and the entry points and examples, which only call the rest.
pub mod Address
pub mod Base
pub mod ByteArray
pub mod Config
pub mod Env
pub mod FdManager
pub mod Fiber
pub mod Hook
pub mod Http
pub mod IoManager
pub mod OrderedMap
pub mod Scheduler
pub mod Socket
pub mod TcpServer
pub mod Timer
