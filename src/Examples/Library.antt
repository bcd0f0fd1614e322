-- ===== src/Examples/Library.antt =====
-- The theorem on calls of the library at a concrete input.
use qobject_mimic.Base.{List, ◌∷◌, [], none, refl, arith, pos}
use qobject_mimic.Dispatcher.{post_event}
use qobject_mimic.World.{
  auto_connection, queued_connection, on_dispatcher, data_dispatcher, object_dispatcher,
}
use qobject_mimic.Object.MetaCall.{connect_wrapper, dispatch_through_box}
use qobject_mimic.Object.Lifetime.{construct, track_incoming}
use qobject_mimic.Signal.{connect}
use qobject_mimic.Timer.{timer_fields}
use qobject_mimic.Virtual.{delete_later}
use qobject_mimic.Virtual.Backed.{is_home, Fine}
use qobject_mimic.Virtual.Backed.Library.{
  LibraryCall, constructs, emits, deletes_later, starts_with, connects, AreProper, perform_call,
  perform_calls, library_calls_careful,
}
use qobject_mimic.Examples.Sample.{sample, shot_fields}
use qobject_mimic.Examples.Signals.{sample_boost}
use qobject_mimic.Examples.Safety.{sample-IsSound, boost_code-IsCareful}

-- A slot that connects to the Timer at 6, makes an object, emits a signal, and calls deleteLater()
-- and start( 20 ).
abbrev slot_calls : List LibraryCall
slot_calls =
    connects 90 6 4 auto_connection
    ∷ constructs 9 none
    ∷ emits 41 31 5 4 queued_connection
    ∷ deletes_later 5
    ∷ starts_with 6 (pos 20)
    ∷ []

slot_calls-AreProper : AreProper sample_boost 1 21 sample slot_calls
unfolding perform_call is_home construct connect_wrapper dispatch_through_box delete_later
    on_dispatcher post_event data_dispatcher timer_fields object_dispatcher connect track_incoming
slot_calls-AreProper = (
  (refl, λ c o ob e. ground arith),
  (
    (refl, λ r home. ground arith),
    ((λ lives same. refl, refl), (refl, ((refl, (shot_fields, refl)), tt))),
  ),
)

library_calls_careful_example : Fine 21 sample (perform_calls sample_boost 1 slot_calls sample)
library_calls_careful_example =
    library_calls_careful sample_boost 1 21 refl boost_code-IsCareful slot_calls sample
      sample-IsSound slot_calls-AreProper
