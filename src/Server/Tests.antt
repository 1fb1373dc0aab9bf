-- ===== src/Server/Tests.antt =====
-- The shutdown at a concrete process.
use codehive.Errors.{plain}
use codehive.Prelude.Exec.{ok, throw}
use codehive.Prelude.{◌∷◌, [], none, refl, false, List, ◌≡◌, true}
use codehive.Server.{Process, Closers, shutdown}
use codehive.Server.Laws.{shutdown-silent}
use codehive.Observer.{Happening, initial, follow, connect, emit}
use codehive.Observer.Tests.{event_of}

abbrev running_server : Process
running_server = record {
  observer = initial;
  app_open = true;
  pool_open = false;
  redis_open = true;
}

abbrev app_hangs : Closers
app_hangs = record { close_app = throw (plain "ETIMEDOUT"); end_pool = ok tt; quit_redis = ok tt }

-- a failure of the app leaves Redis open
redis_left_open : (shutdown app_hangs running_server).1.redis_open ≡ true
unfolding shutdown
redis_left_open = refl

abbrev late : List Happening
late = connect "c1" none ∷ emit (event_of "a") ∷ []

shutdown-silent_example : (follow late (shutdown app_hangs running_server).1.observer).sent ≡ []
shutdown-silent_example = shutdown-silent app_hangs running_server late
