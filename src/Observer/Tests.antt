-- ===== src/Observer/Tests.antt =====
-- The observer at concrete inputs.
use codehive.Prelude.Dict
use codehive.Observer.Deliveries.{received}
use codehive.Observer.Receives.{connected-receives, wanted}
use codehive.Prelude.{◌++◌, refl, [], some, true, ◌∷◌, none, ◌≡◌, List, String}
use codehive.Observer.{
  deliveries, broadcast, ExecutionEvent, Happening, initial, follow, step, connect, closed, emit,
  message_of,
}

abbrev pub event_of : String → ExecutionEvent
event_of job = record {
  job_id = job;
  status = "running";
  stdout = none;
  stderr = none;
  exit_code = none;
  timestamp = "t";
}

-- another client follows everything, and leaves
abbrev history : List Happening
history = connect "c1" none ∷ emit (event_of "a") ∷ []

abbrev later : List Happening
later = emit (event_of "a") ∷ closed "c1" ∷ emit (event_of "b") ∷ emit (event_of "a") ∷ []

on_bus_still : (follow history initial).subscribed ≡ true
unfolding follow step
on_bus_still = refl

two_for_c2 : wanted (some "a") later ≡ message_of (event_of "a") ∷ message_of (event_of "a") ∷ []
two_for_c2 = refl

one_for_c1 : received "c1" (follow history initial).sent ≡ message_of (event_of "a") ∷ []
unfolding follow step broadcast deliveries received Dict.put
one_for_c1 = refl

connected-receives_example :
    received "c2" (follow later (step (connect "c2" (some "a")) (follow history initial))).sent
    ≡ received "c2" (follow history initial).sent ++ wanted (some "a") later
connected-receives_example =
    connected-receives "c2" (some "a") history later on_bus_still (refl, (refl, (refl, (refl, tt))))
