-- ===== src/Examples/Sample.antt =====
-- A program of two threads: the Thread at 1 is running, with the ThreadData 11 and the dispatcher
-- 21, and the Thread at 2 has the ThreadData 12 and the dispatcher 22. The objects at 2
-- and 5 and the Timer at 6 live in the first.
use qobject_mimic.Base.{[], ◌∷◌, none, some, true, false, ◌+◌, ◌==◌, if◌then◌else◌, pos}
use qobject_mimic.Event.{meta_call, user, deferred_delete, timer}
use qobject_mimic.Dispatcher.{Dispatcher, EventPair, TimerData}
use qobject_mimic.World.{World, Code, Object, Thread, ThreadData, TimerFields, normal, warn}

abbrev pub call_pair : EventPair
call_pair = record { receiver = 5; event = some (meta_call (user 3)) }

abbrev pub delete_pair : EventPair
delete_pair = record { receiver = 5; event = some deferred_delete }

abbrev pub late_pair : EventPair
late_pair = record { receiver = 5; event = some (timer 7) }

abbrev pub object_timer : TimerData
object_timer = record { timer_id = 7; interval_ms = 100; receiver = 5; next_fire = 200 }

abbrev pub other_timer : TimerData
other_timer = record { timer_id = 8; interval_ms = 50; receiver = 6; next_fire = 900 }

abbrev pub busy_dispatcher : Dispatcher
busy_dispatcher = record {
  event_queue = call_pair ∷ delete_pair ∷ [];
  timers = object_timer ∷ other_timer ∷ [];
  interrupted = false;
  timers_changed = false;
  wake_up_requested = false;
  wake_callback = none;
  notified = 0;
  nudges = [];
}

abbrev pub idle_dispatcher : Dispatcher
idle_dispatcher = record busy_dispatcher { event_queue = []; timers = [] }

abbrev pub plain_object : Object
plain_object = record {
  life = 41;
  affinity = 31;
  delete_later_posted = false;
  name = [];
  cleanup_callbacks = 9 ∷ [];
  incoming = [];
  timer = none;
}

abbrev pub shot_fields : TimerFields
shot_fields = record { interval = pos 50; timer_id = 8; single_shot = true; active = true }

abbrev pub timer_object : Object
timer_object = record {
  life = 42;
  affinity = 32;
  delete_later_posted = false;
  name = [];
  cleanup_callbacks = [];
  incoming = [];
  timer = some shot_fields;
}

abbrev pub thread_object : Object
thread_object = record plain_object { life = 43; affinity = 33; cleanup_callbacks = [] }

abbrev pub first_thread : Thread
first_thread = record {
  thread_data = 11;
  exiting = false;
  exit_code = pos 0;
  finished = false;
  joinable = true;
  adopted = false;
  priority = normal;
  priority_needs_reset = false;
}

abbrev pub first_data : ThreadData
first_data = record { thread = 1; running = true; dispatcher = 21 }

abbrev pub sample : World
sample = record {
  heap = λ o.
      if o == 5
      then some plain_object
      else if o == 6
      then some timer_object
      else if o == 2
      then some thread_object
      else none;
  alive = λ l. true;
  boxes = λ b. 11;
  datas =
      λ a. if a == 11 then first_data else record { thread = 2; running = false; dispatcher = 22 };
  dispatchers = λ k. if k == 21 then busy_dispatcher else idle_dispatcher;
  threads = λ t.
      if t == 1 then first_thread else record first_thread { thread_data = 12; joinable = false };
  current = λ n. n;
  apps = λ a.
      if a == 3
      then record { main_thread = 1; dispatcher = 21; in_exec = false }
      else record { main_thread = 2; dispatcher = 22; in_exec = false };
  instance_ = 3;
  pending = [];
  nodes = λ n. none;
  connections = [];
  next_id = 100;
  next_timer_id = 9;
  clock = 300;
  warnings = 0;
  freed = [];
  fault = false;
}

-- User code: a slot lets time pass, and a timeout adds a line on stderr.
abbrev pub sample_code : Code
sample_code = record {
  run = λ n w. record w { clock = w.clock + n };
  timer_event = λ o i w. record w { clock = w.clock + i };
  emit_timeout = λ o w. warn w;
  disconnect = λ c w. w;
  destructor = λ o w. record w { clock = w.clock + 1 };
  destroy_timeout = λ o w. w;
}

abbrev pub other_code : Code
other_code = record sample_code { run = λ n w. warn w }
