-- ===== src/Lib.antt =====
-- A model of lne, a library for servers with many connections, written in C++.
--
-- The program. A reactor (lne/SockReactor.cpp) waits for events on sockets and passes them to
-- eventers (lne/SockEventer.cpp) on several threads, while one more thread times out idle ones. The
-- eventer for a connection is a spray (lne/SockSpray.cpp): its threads send the blocks that clients
-- queued, receive into new blocks for a handler, and agree on who shuts the connection down. Blocks
-- (lne/DataBlock.cpp) are counted references out of a pool; queues, stacks and pools stand on one
-- linked list with a free list (lne/ObjectList_T.h). Sockets are owned by pads (lne/SockPad.h). The
-- eventer for a listening socket is a spring (lne/SockSpring.cpp), whose loop hands clients to its
-- handler. Acceptors, connectors and waves do the same things without a reactor, waiting for the
-- system. A thread pool (lne/ThreadPool.cpp) serves tasks on its own. The program apps/pproxy joins
-- each client of a spring to a connection of its own.
--
-- Which file models which part, with its lemmas in the folder of the same name:
--   Config          the result codes of lne/config.h
--   Ring            circles of prev and next fields over a store, for the list and the reactor
--   ObjectList      lne/ObjectList_T.h: PopFront, PushBack and so on are pop_front, push_back
--   ObjectQueue, ObjectStack   lne/ObjectQueue_T.h, lne/ObjectStack_T.h
--   ExtendObject    lne/ExtendObject.h and .cpp: RefObject, AutoRelease; History has calls one after the
--                   other, Atomic the loads and stores of several threads under the lock
--   DataBlock       lne/DataBlock.h and .cpp: the block, and in DataBlock/Pool its pool, whose History
--                   has any calls one after the other
--   ThreadPool      lne/ThreadPool.cpp: the queue, and in ThreadPool/Run the threads together
--   SockPad         lne/SockPad.h
--   SockSpray       lne/SockSpray.h and .cpp: set-up and Clean; Write, Read and Thread have the
--                   threads' steps; System runs senders, receivers and clients together and notes
--                   what goes out, Leave the threads that enter and leave; Flush runs a whole
--                   HandleWrite or Send on one thread, and Receive a whole HandleRead; Clean, Bind and
--                   Wakeup have what else is shown; Pool is the pool, and Pool/Life its calls up to its
--                   destruction
--   SockEventer     lne/SockEventer.h and .cpp: the pool of eventers to be used again; Alloc has what
--                   the Alloc of springs and of sprays share, Pooled the eventers that a pool keeps
--   SockSpring      lne/SockSpring.h and .cpp: Accept has the loop of __HandleRead, Life the whole
--                   life of a spring, Pool the pool
--   SockAddr        lne/SockAddr.h and .cpp: Text has atoi and the digits, Port and Host the overloads
--                   of Set, Make the constructors
--   SockAcceptor, SockConnector, SockStream, SockWaves   the files of lne/ with these names
--   Thread, ThreadLock, ThreadMutex, ThreadSemaphore, ThreadCondition   the files of lne/ with these
--                   names; Thread/Sleep has what Sleep asks for, ThreadCondition/System the threads that
--                   wait and signal
--   Pproxy          apps/pproxy: the handlers, their pairs of connections, the arguments, and in
--                   Pproxy/Main the objects that the program makes and gives back
--   SockReactor     lne/SockReactor.h and .cpp: the circle of eventers, Timer and Service; Start has
--                   NewInstance and the destructor, Loops the loops, History any order of calls
--   TimeValue       lne/TimeValue.h and .cpp; Make has the constructors
--   Examples        the theorems at concrete inputs
--
-- How. An address is a number and null is 0; a field that the code reaches through a pointer is a
-- function of the address. A text is the list of its bytes. A state is a record with the names of
-- the members, without the last underscore. What lies outside (malloc, pthread_create, send, recv,
-- epoll_ctl, time) is an argument of the function that calls it, and a hypothesis says what is
-- relied on: memory from malloc is not in use, and send and recv move no more bytes than they are
-- asked to. A LNE_UINT that can wrap around is taken modulo 2 ^ 32, and a size for malloc modulo 2 ^
-- 64; a reactor has fewer workers than the largest LNE_UINT. Each critical section and each system call is one step; a relation puts the steps of all
-- threads in any order.
--
-- Fuel. Clean runs on fuel for its loop, and one round more than there are blocks is enough. The
-- loops of Normalize run on as many rounds as there are microseconds, which is enough. A whole
-- HandleWrite runs on fuel for each answer of send and for each block, and five steps more; a whole
-- HandleRead for each answer of recv, two steps for each block filled, and six more. The loops of
-- the destructors and of Timer run on fuel that the caller gives. Loops over what the system answers
-- (accept, recv, epoll_wait) run on the list of its answers.
--
-- Not modelled: the variants for Windows and FreeBSD; the calls of the system themselves and the
-- destructors that only call one; what is printed; the tests. Overflow of the
-- signed numbers in TimeValue and in atoi is undefined in C++ and left out.
pub mod Prelude
pub mod Config
pub mod Ring
pub mod ObjectList
pub mod ObjectQueue
pub mod ObjectStack
pub mod ExtendObject
pub mod DataBlock
pub mod ThreadPool
pub mod SockPad
pub mod SockSpray
pub mod TimeValue
pub mod SockEventer
pub mod SockReactor
pub mod Examples
pub mod SockAddr
pub mod SockSpring
pub mod SockAcceptor
pub mod SockConnector
pub mod SockStream
pub mod SockWaves
pub mod Pproxy
pub mod ThreadCondition
pub mod Thread
pub mod ThreadSemaphore
pub mod ThreadMutex
pub mod ThreadLock
