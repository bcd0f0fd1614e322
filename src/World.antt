-- ===== src/World.antt =====
-- The state that the classes share: objects by address, affinity boxes and ThreadData
-- (src/ThreadData.hpp, src/ThreadData.cpp), dispatchers, threads, and the registry of callLater().
use qobject_mimic.Base.{
  ℕ, ◌+◌, List, ◌∷◌, Option, some, Bool, true, if◌then◌else◌, is_null, nullptr, update, ℤ,
}
use qobject_mimic.Key.{CallLaterKey}
use qobject_mimic.Event.{Event}
use qobject_mimic.Dispatcher.{Dispatcher, new_dispatcher}

-- The enum Thread::Priority.
pub data Priority : Type 0 where
  idle lowest low normal high highest time_critical inherit : Priority

-- The enum ConnectionType of src/Global.h.
pub data ConnectionType : Type 0 where
  auto_connection direct_connection queued_connection : ConnectionType

-- The members of a Timer. A timer id is an `int` as a 32-bit pattern.
pub record TimerFields : Type 0 where
  pub interval : ℤ
  pub timer_id : ℕ
  pub single_shot : Bool
  pub active : Bool

-- The members of an Object, and those of a Timer if it is one. `life` names the life token and
-- `affinity` the box; `name` is a string; cleanup callbacks are the user's code.
pub record Object : Type 0 where
  pub life : ℕ
  pub affinity : ℕ
  pub delete_later_posted : Bool
  pub cleanup_callbacks : List ℕ
  pub incoming : List ℕ
  pub name : List ℕ
  pub timer : Option TimerFields

pub record ThreadData : Type 0 where
  pub thread : ℕ
  pub running : Bool
  pub dispatcher : ℕ

-- The members of a Thread beside those of its Object. `joinable` is the POSIX handle's flag.
pub record Thread : Type 0 where
  pub thread_data : ℕ
  pub exiting : Bool
  pub exit_code : ℤ
  pub finished : Bool
  pub joinable : Bool
  pub adopted : Bool
  pub priority : Priority
  pub priority_needs_reset : Bool

-- The members of a CoreApplication beside those of its Object.
pub record App : Type 0 where
  pub main_thread : ℕ
  pub dispatcher : ℕ
  pub in_exec : Bool

-- What the wrapper of a connect() captures: the receiver, its life token and affinity box, the
-- slot, which is user code, and the type.
pub record Connection : Type 0 where
  pub receiver : ℕ
  pub life : ℕ
  pub box : ℕ
  pub slot : ℕ
  pub type : ConnectionType

-- `fault` is set by an access to an object that has been destroyed. `next_id` names the next life
-- token, box, ThreadData, dispatcher or node. `current` is the thread_local sCurrentThread of each
-- native thread, `instance_` the static sInstance. `connections` lists what boost::signals2 holds,
-- each with its handle and its signal. `warnings` counts the lines on stderr, and `freed` lists
-- the events deleted.
pub record World : Type 0 where
  pub heap : ℕ → Option Object
  pub alive : ℕ → Bool
  pub boxes : ℕ → ℕ
  pub datas : ℕ → ThreadData
  pub dispatchers : ℕ → Dispatcher
  pub threads : ℕ → Thread
  pub current : ℕ → ℕ
  pub apps : ℕ → App
  pub instance_ : ℕ
  pub pending : List (CallLaterKey × ℕ)
  pub nodes : ℕ → Option ℕ
  pub connections : List (ℕ × ℕ × Connection)
  pub next_id : ℕ
  pub next_timer_id : ℕ
  pub clock : ℕ
  pub warnings : ℕ
  pub freed : List (Option Event)
  pub fault : Bool

-- The code of the library's user and of boost::signals2, which the library calls: slots, callbacks
-- and overrides of timerEvent(), the emission of a Timer's timeout signal, and disconnect().
-- `destructor` is what the destructors of the classes of an object below Object or Timer do, where
-- they return: the user's, and ~Thread() and ~CoreApplication(). `destroy_timeout` destroys the
-- signal `timeout`, a member of a Timer, with its slots.
pub record Code : Type 0 where
  pub run : ℕ → World → World
  pub timer_event : ℕ → ℕ → World → World
  pub emit_timeout : ℕ → World → World
  pub disconnect : ℕ → World → World
  pub destructor : ℕ → World → World
  pub destroy_timeout : ℕ → World → World

abbrev pub warn : World → World
warn w = record w { warnings = w.warnings + 1 }

abbrev pub faulted : World → World
faulted w = record w { fault = true }

abbrev pub free_event : Option Event → World → World
free_event e w = record w { freed = e ∷ w.freed }

-- ThreadData::thread() and ThreadData::dispatcher(), through a pointer that may be null.
unfoldable pub data_thread : ℕ → World → ℕ
data_thread a w = if is_null a then nullptr else (w.datas a).thread

unfoldable pub data_dispatcher : ℕ → World → ℕ
data_dispatcher a w = if is_null a then nullptr else (w.datas a).dispatcher

-- ThreadData::setThread(), setThreadRunning() and setDispatcher().
unfoldable pub set_thread : ℕ → ℕ → World → World
set_thread a t w = record w { datas = update w.datas a (record (w.datas a) { thread = t }) }

unfoldable pub set_thread_running : ℕ → Bool → World → World
set_thread_running a b w = record w {
  datas = update w.datas a (record (w.datas a) { running = b });
}

unfoldable pub set_dispatcher : ℕ → ℕ → World → World
set_dispatcher a k w = record w { datas = update w.datas a (record (w.datas a) { dispatcher = k }) }

-- Affinity::data() and Affinity::setData() of an object's box.
abbrev pub affinity_data : Object → World → ℕ
affinity_data ob w = w.boxes ob.affinity

unfoldable pub set_affinity : Object → ℕ → World → World
set_affinity ob a w = record w { boxes = update w.boxes ob.affinity a }

-- Object::thread().
unfoldable pub object_thread : Object → World → ℕ
unfolding data_thread
object_thread ob w = data_thread (affinity_data ob w) w

-- The dispatcher of the thread that an object lives in, or null.
unfoldable pub object_dispatcher : Object → World → ℕ
unfolding data_dispatcher
object_dispatcher ob w = data_dispatcher (affinity_data ob w) w

abbrev pub put_object : ℕ → Object → World → World
put_object o ob w = record w { heap = update w.heap o (some ob) }

-- A call of an operation on the dispatcher at an address.
unfoldable pub on_dispatcher : ℕ → (Dispatcher → Dispatcher) → World → World
on_dispatcher k f w = record w { dispatchers = update w.dispatchers k (f (w.dispatchers k)) }

-- std::make_shared of a dispatcher: its address, not null.
unfoldable pub make_dispatcher : World → World × ℕ
make_dispatcher w =
    let k = w.next_id + 1 in
    (record w { dispatchers = update w.dispatchers k new_dispatcher; next_id = k }, k)
