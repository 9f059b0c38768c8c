-- ===== src/Lib.antt =====
-- lite_cpplib: byte streams, times, events, threads, timers, work queues, sockets, and a logger
--
-- A C++ library for Windows and Linux, of header files. This development models its data structures and
-- its threads, and proves what they promise.
--
-- Parts, by file of the repository:
--   ByteOrder     base/byte_order.h: HOST_BYTEORDER, Reverse*, Hton*, Ntoh*. Words are numbers below 2 ^ w.
--   ByteStream    tools/byte_stream.h: class ByteStream. The fields of the record are its members; `block`
--                 is what data_ points to, a list of cells that are none until they are written. Children:
--                 Integers (`<<`, `>>`, Get*, Put*), Strings (texts and nested streams), Valid (the
--                 invariant), Queue (Add and Get), Pointers (positions, FlushReadPtr, copies).
--   Time          tools/time_tool.h: struct Time, Set, GetDataTimeString1 to 3, GetCurDataTime.
--   Event         event/event.h: class Event on both platforms.
--   WorkQueue     tools/work_queue.h: struct Work and class WorkQueue. Machine is WorkQueue::_Run among
--                 other threads: a step of the relation is what runs between two points at which another
--                 thread can come in, so that each section under list_mutex_ is one step.
--   IocpBase      network/iocp_base.h: the contexts of network operations and of sockets, the pool of each
--                 kind, and the active sockets by their id. Layout has the sizes of the system's types.
--   Logger        tools/logger.h: Settings, Records (the texts of a level), Lines (on the screen and in the
--                 file), Background (where a record goes, _Run and Flush),
--                 and DebugHexString (Hex).
--   Thread        event/thread.h: class Thread on both platforms. Stopping (Start and Stop), Loop (Linux).
--   TcpWorker     network/iocp_tcpworkthread.h: what a worker does with a completion. Run is _Run; Reachable
--                 are the states that the workers, the server and the system come to, and
--                 Closing says what becomes of a context that is closed.
--   TcpServer     network/iocp_tcpserver.h: Init (Opening), Operations (Start, Send, Stop, DeInit) and what
--                 they come to (Starting, Running, Sending, Unset, Halting).
--   TcpClient     network/iocp_tcpclient.h: Init, Start, Connect (Connecting), Send, Stop and DeInit.
--   UdpWorker     network/iocp_udpworkthread.h: what a worker does with a completion of a datagram
--                 (Receiving), and what it leaves alone (Keeping).
--   UdpPeer       network/iocp_udppeer.h: Init, Start and Create (Creating); Operations has SendTo, Stop and
--                 DeInit; Reachable are the states that a peer and its workers come to.
--   Timer         tools/timer.h: the timers (Counting) and the thread that hosts them (Hosting).
--   Base          what the parts share: outcomes, texts in memory, lemmas on lists, tests on numbers.
--
-- ByteStream uses ByteOrder for its integers; Work holds a ByteStream; WorkQueue signals and waits on an
-- Event; the Logger prints Times. A Thread waits on an Event. TcpWorker works on the pools of IocpBase,
-- TcpServer and TcpClient have TcpWorkers' operations and Threads, UdpPeer those of UdpWorkers, and a
-- Timer's host is a Thread.
--
-- A call comes to `ok`, to `throw`, or to `undefined`, where C++ gives the program no meaning: a byte
-- outside a block, an uninitialised byte that is looked at, a copy between overlapping areas, an object
-- that is deleted twice.
--
-- Parameters: the event objects of Windows are the record EventApi, whose documented behaviour is
-- Event.Windows.IsDocumented. The answers of pthread calls, of the clock and of the system's time are
-- arguments. Work functions and clients are steps of any kind in any order.
--
-- Bounds and fuel: sizes and positions are taken modulo 2 ^ 32 where the code does. `max_written` leaves
-- room for the growth of a block, which adds 1024 or a sixteenth (ByteStream.Valid). GetString has fuel
-- for one round more than the stream has unread bytes, and returns on it; %d has fuel for one digit more
-- than the number's value; the loop over a text's lines has a round for every character.
--
-- A round of a worker, and an operation of the server or of a timer, is one step: what other threads do
-- between the calls inside it is not modelled. Stop of a thread is read off the answers of the system that
-- it gets, in lists; it returns none as long as they do not end its loops.
--
-- Not modelled: allocation that fails, Add of a part of the stream's own block, the destructors but the
-- thread's, and the mutexes.
pub mod Base
pub mod Bits
pub mod ByteOrder
pub mod ByteStream
pub mod Time
pub mod Event
pub mod WorkQueue
pub mod IocpBase
pub mod Logger
pub mod Thread
pub mod TcpWorker
pub mod TcpServer
pub mod TcpClient
pub mod UdpWorker
pub mod UdpPeer
pub mod Timer
