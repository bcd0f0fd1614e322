-- ===== src/Lib.antt =====
-- A library in the manner of QObject: objects with a thread affinity, signals whose slots run on the
-- receiver's thread, event loops, timers, threads, and an application object. Paths below are from
-- the root of the repository.
--
-- The parts and how they interact. Every Thread has a ThreadData, which outlives it and holds its
-- dispatcher: a queue of events and a list of timers under one mutex. An Object names its thread
-- through an affinity box that holds a ThreadData. A connection, callLater(), deleteLater() and
-- Thread::post() put events into the dispatcher of the receiver's thread; the loop of that thread
-- takes them out and calls the receiver's event(). Timers are registered with the dispatcher of the
-- object's thread and become timer events in the loop. A moved object takes its timers along with a
-- queued call, and a destroyed one is taken out of its dispatcher.
--
-- The files.
--   Base, with Tests, Lists and Every: shared names, Boolean tests on numbers, lists, functions as
--     stores, predicates over lists.
--   Key: CallLaterKey and CallLaterKeyHash of src/Object.h.
--   Event: src/Event.h. A std::function is a Task: the closures that the library makes are
--     constructors, and code of the library's user is a number.
--   Dispatcher, with Queue, Timers, Expiry, Wait and Invariant: the operations of
--     src/EventDispatcherDefault.cpp, each one step on the record of the members; Waiting: its
--     wait on the condition variable as interleaved steps.
--   Loop, with Plan, Refine, Interrupts and Deferred: processEvents() and processDeferredDeletes(), over an
--     interface (Host) of what the loops call: delivery, freeing, the hooks, the clock.
--   World: the members of Object, Timer, Thread, CoreApplication and ThreadData, in one state with
--     the registry of callLater(), the dispatchers, and the statics; src/ThreadData.cpp and
--     src/ThreadData.hpp.
--   Object/MetaCall, CallLater, Affinity, Timers, Lifetime: src/Object.cpp and the wrappers of
--     src/Object.h: dispatchMetaCall(), connect(), callLater(), moveToThread(), startTimer(),
--     killTimer(), construction and destruction.
--   Object/Names: objectName() and setObjectName().
--   Virtual: event(), timerEvent() and deleteLater(), which reach overrides, and the Host that the
--     classes make for the loops. Virtual/Emission: an emission and the pass that runs its slot.
--     Virtual/Threads: `delete this` on a Thread.
--   Virtual/Backed, with Operations, Delivery, Destruction, Passes, Safety, Exec and Deletes: the
--     objects that a dispatcher's queue and timers name, over every operation that a pass runs, from
--     one timer to exec() and processDeferredDeletes(); with Calls, Timers, Connections, Threads
--     and Library: over the calls of the library that slots and callbacks are made of.
--   Platform, with Inherits and Classes: the interface of src/AbstractEventDispatcher.h, and
--     EventDispatcherDefault, EventDispatcherLinux and EventDispatcherWin32 as classes that share
--     its operations over hooks of their own.
--   Timer, Timer/States: src/Timer.cpp. SingleShot, SingleShot/Fires: singleShot() of src/Timer.h.
--   Thread, with Priorities, Running, Lifecycle and Body: src/Thread.cpp, src/ThreadPosix.cpp, and
--     create() of src/Thread.h.
--   Application, Application/Exec: src/CoreApplication.cpp.
--   Thread/Windows, with Start and Handles: src/ThreadWin.cpp: the start of a thread, and its handle
--     as interleaved steps of the threads that start it and wait for it.
--   Linux, with Wait, Wakeup and Wakeup/Counter: src/EventDispatcherLinux.cpp: the descriptors, the
--     wait, and the wakeup descriptor as interleaved steps of the loop and of the threads that wake it.
--   Win32, with Drain, Wakeup and Wakeup/Messages: src/EventDispatcherWin32.cpp: the message queue,
--     and the wakeup message as interleaved steps.
--   Signal, with Connections, Roundtrip, Delivery and Linked: src/Signal.h, the body of connect() in
--     src/Object.h, and disconnect(), over an interface (Boost) of boost::signals2; Linked, with
--     children for each operation, is about all connections and objects of the program at once.
--   Traits, Traits/Cover: the traits of src/Global.h, over a data type of C++ types.
--   Overloads, with Choice, Connect and Later: the overloads of connect() and callLater() in src/Object.h:
--     which a call can resolve to, what each asserts, and the key that each of callLater() makes.
--   Examples: the theorems at concrete inputs.
--
-- Conventions. An address is a number and 0 is nullptr. An operation takes the calling thread as the
-- argument `caller` (what Thread::currentThread() gives), or the native thread as `native`. Code
-- that runs under a mutex is one step. A read of a destroyed object sets `fault`. Times are
-- nanoseconds of the steady clock; a timer id is an `int` as a 32-bit pattern, with -1 as
-- 4294967295; size_t wraps at 2 ^ 64.
--
-- Fuel. The rounds of processDeferredDeletes(), and the passes of exec(), take fuel, and running
-- out of it gives no result, never a wrong one. The rounds end within any measure of the program
-- that every round lowers, since a round takes all deferred deletes out of the queue and only a
-- destructor adds more; the passes end one after the last that leaves the thread not exiting.
-- An untimed wait() that does not end has no result either.
--
-- Parameters. Slots, callbacks, overrides of timerEvent() and run(), the emission of a Timer's
-- timeout and the destruction of that signal are code outside src/: they are functions from state to
-- state (Code, Body) that may do anything. So are the destructors of the classes below Object and
-- Timer, which `delete this` reaches (Code.destructor): the user's, and, through the virtual call,
-- ~Thread() and ~CoreApplication(), which Thread and Application model; Virtual/Threads joins the
-- two for a Thread, and Virtual/Backed/Threads is about such a Thread in the loop of another. As functions they return, so a statement on a loop is about objects whose
-- destructors do: a Thread that its own loop deletes waits for itself without end and is not
-- among them. boost::signals2 is a record of operations (Boost) with laws for what its documentation
-- says: a connection has a fresh handle, an emission calls the slots of its signal, and
-- disconnecting destroys the slot. What other threads do during a wait is a function as well, as are
-- the window procedures on Windows, and what pthread, poll(2) or the Windows API answers is a record
-- or an argument, with their constants. std::is_base_of and typeid().hash_code() are functions.
--
-- Not modelled. Mutexes and atomics below the level of one step; the arguments that a signal or
-- callLater() passes on, which are part of the slot or the invoker; which of the overloads that take
-- a call is chosen, and the conversions other than those of a pointer to member to a class derived
-- from its own or from noexcept; a write() to the eventfd that fails; tests, tools and the build.
pub mod Application
pub mod Base
pub mod Dispatcher
pub mod Event
pub mod Examples
pub mod Key
pub mod Linux
pub mod Loop
pub mod Object
pub mod Overloads
pub mod Platform
pub mod Signal
pub mod SingleShot
pub mod Thread
pub mod Timer
pub mod Traits
pub mod Virtual
pub mod Win32
pub mod World
