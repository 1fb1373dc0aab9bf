-- ===== src/Dashboard/Tests.antt =====
-- The dashboard's client at concrete inputs.
use codehive.Dashboard.Badge.Laws.{offered_iff_supported}
use codehive.Dashboard.Badge.{lang_names}
use codehive.Dashboard.Socket.Laws.{Run-one}
use codehive.Dashboard.Socket.{closes, fires, mounted, Run, on_close, init_ws, Sockets}
use codehive.Executor.Languages.{lang_interpreter, supported, includes}
use codehive.Dashboard.Page.{offered, poll}
use codehive.Dashboard.Page.Poll.{poll-IsStop, IsStop}
use codehive.Prelude.Exec.{ok, Result}
use codehive.Prelude.Dict
use codehive.Types.{completed, running}
use codehive.Dashboard.Format.{format_uptime}
use codehive.Dashboard.Stores.Feed.{receive-latest, payloads, receive}
use codehive.Prelude.{
  is_some, true, arith, zero, suc, length, ◌+◌, some, reverse, str_eq, take, refl, if◌then◌else◌,
  ◌≡◌, ◌∷◌, false, Option, none, ℕ, List, [], String,
}
use codehive.Dashboard.Stores.{on_ws_message, Stores, Execution}

abbrev execution_of : String → Execution
execution_of id = record {
  id = id;
  language = none;
  stdout = "";
  stderr = "";
  exit_code = none;
  duration_ms = none;
  status = running;
  worker_id = none;
  started_at = none;
  finished_at = none;
  error = none;
}

abbrev parse_message : String → Option (String × Execution)
parse_message text = if str_eq text "{" then none else some ("execution_update", execution_of text)

abbrev at_start : Stores (Unit {0})
at_start = record {
  executions = [];
  execution_total = 0;
  executions_loading = false;
  workers = [];
  workers_loading = false;
  stats = none;
  stats_loading = false;
  live_feed = [];
}

abbrev texts : List String
texts = "a" ∷ "{" ∷ "b" ∷ []

both_fed :
    (receive parse_message texts at_start).live_feed ≡ execution_of "b" ∷ execution_of "a" ∷ []
unfolding receive on_ws_message
both_fed = refl

receive-latest_example :
    (receive parse_message texts at_start).live_feed
    ≡ take 50 (reverse (payloads parse_message texts))
receive-latest_example = receive-latest parse_message texts at_start refl

abbrev print_seven : ℕ → String
print_seven n = "7"

a_week : format_uptime print_seven 604800 ≡ "7d 7m"
unfolding format_uptime
a_week = refl

-- the second request finds the execution over
abbrev answers : ℕ → Result String Execution
answers zero = ok (execution_of "a")
answers (suc n) = ok (record (execution_of "a") { status = completed })

poll-IsStop_example : IsStop answers 60 (poll answers)
poll-IsStop_example = poll-IsStop answers

offered_iff_supported_example :
    (includes offered "go" ≡ includes supported "go")
    × (is_some (Dict.get "go" lang_names) ≡ includes supported "go")
    × (is_some (Dict.get "go" lang_interpreter) ≡ includes supported "go")
offered_iff_supported_example = offered_iff_supported "go"

-- no socket can be made at first, and the first one closes
abbrev reconnecting : Sockets
reconnecting = on_close (init_ws true (record { live = 0; timers = [] }))

reconnects : Run reconnecting
unfolding init_ws on_close
reconnects =
    Run.later
      (Run.later (mounted false)
        (fires (init_ws false (record { live = 0; timers = [] })) 5000 [] [] true refl))
      (closes (init_ws true (record { live = 0; timers = [] })) (omega arith))

Run-one_example : reconnecting.live + length reconnecting.timers ≡ 1
Run-one_example = Run-one reconnects
