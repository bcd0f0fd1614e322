-- ===== src/Virtual/Emission.antt =====
-- A signal emitted on one thread and its slot on another: the wrapper of Object::connect()
-- (src/Object.h), dispatchMetaCall() (src/Object.cpp) and a pass of the receiver's loop.
use qobject_mimic.Base.{List}
use qobject_mimic.Event.{Event}
use qobject_mimic.World.{World}
