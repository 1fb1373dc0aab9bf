-- ===== src/Events/Tests.antt =====
-- The bus at concrete inputs.
use codehive.Prelude.{reverse, none, str_eq, ◌++◌, ◌≡◌, List, if◌then◌else◌, String, ◌∷◌, [], refl}
use codehive.Events.{
  Act, subscribes, unsubscribes, meets, Hub, act, acts, init, Emitter, observer_callback, each,
  without,
}
use codehive.Events.Counts.{times, count}
use codehive.Events.Hears.{subscribed-hears, heard_by, emitted}
use codehive.Events.Watched.{acts-follow, met}
use codehive.Observer.Tests.{event_of}
use codehive.Observer.{initial, follow, emit, connect, destroy}

-- the listeners of every event
abbrev Listeners : Type 0
Listeners = String → List String

abbrev emitter : Emitter Listeners
emitter = record {
  on = λ name l b k. if str_eq name k then b k ++ l ∷ [] else b k;
  off = λ name l b k. if str_eq name k then reverse (without l (reverse (b k))) else b k;
  listeners = λ name b. b name;
  emits = λ name call b s. each call (b name) s;
  listeners-on = λ name other l b. refl;
  listeners-off = λ name other l b. refl;
  emits-listeners = λ name call b s. refl;
}

abbrev quiet : Hub Listeners
quiet = record { bus = λ name. []; observer = initial; heard = [] }

-- a callback that logs is on the bus already, and another comes
abbrev during : List Act
during =
    meets (connect "c1" none)
    ∷ meets (emit (event_of "a"))
    ∷ subscribes "logger"
    ∷ meets (emit (event_of "b"))
    ∷ []

abbrev after : List Act
after =
    meets (emit (event_of "c"))
    ∷ unsubscribes "logger"
    ∷ meets destroy
    ∷ meets (emit (event_of "d"))
    ∷ []

none_for_metrics : count emitter "metrics" (init emitter quiet).bus ≡ 0
unfolding init times
none_for_metrics = refl

two_emitted : emitted during ≡ event_of "a" ∷ event_of "b" ∷ []
two_emitted = refl

subscribed-hears_example :
    heard_by "metrics"
      (acts emitter after (
        act emitter
          (unsubscribes "metrics")
          (acts emitter during (act emitter (subscribes "metrics") (init emitter quiet))))).heard
    ≡ heard_by "metrics" (init emitter quiet).heard ++ emitted during
subscribed-hears_example =
    subscribed-hears emitter "metrics" (init emitter quiet) during after refl none_for_metrics
      (refl, (refl, (refl, (refl, tt)))) (refl, (refl, (refl, (refl, tt))))

none_for_observer : count emitter observer_callback quiet.bus ≡ 0
unfolding times
none_for_observer = refl

acts-follow_example :
    (acts emitter (during ++ after) (init emitter quiet)).observer
    ≡ follow (met (during ++ after)) initial
acts-follow_example =
    acts-follow emitter quiet (during ++ after) none_for_observer
      (refl, (refl, (refl, (refl, (refl, (refl, (refl, (refl, tt))))))))
