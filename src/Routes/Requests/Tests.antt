-- ===== src/Routes/Requests/Tests.antt =====
-- Requests at concrete inputs.
use codehive.Prelude.{Option, ◌⊎◌, ◌≡◌, ℕ, String, some, none, refl, true}
use codehive.Prelude.Exec.{ok, throw, Result}
use codehive.Errors.{Error, plain}
use codehive.Queue.Sample.{sample}
use codehive.Executor.Tests.{over_redis, over_memory}
use codehive.Queue.Spec.{call}
use codehive.Auth.{authorize, is_public}
use codehive.Auth.Tests.{secret}
use codehive.Routes.Tests.{schema, worker_schemas, hello_body}
use codehive.Routes.Stats.Tests.{wholes}
use codehive.Routes.Requests.{Answer, Draws, handle, respond, denied, result, execute}
use codehive.Routes.Requests.Laws.{Limited, respond-answers, respond-cases}

abbrev drawn : Draws
drawn = record {
  id = "b";
  now = "t5";
  marked_at = "t5";
  uptime = 7;
  day_ago = "t0";
  week_ago = "t0";
  refusal = some "1 minute";
  print = λ n. "10";
}

abbrev refused_query : String → Result Error ℕ
refused_query text = throw (plain "ECONNREFUSED")

abbrev no_header : Option String
no_header = none

abbrev time_zero : String → ℕ
time_zero text = 0

respond-answers_example :
    (a : Answer ℕ) × ((respond sample schema worker_schemas refused_query wholes time_zero
        (some "secret")
        "/api/workers/w1/jobs/zz/result"
        (some "secret")
        drawn
        (result "zz" hello_body)
        over_redis).0
      ≡ ok a)
respond-answers_example =
    respond-answers sample schema worker_schemas refused_query wholes time_zero (some "secret")
      (some "secret") "/api/workers/w1/jobs/zz/result" drawn (result "zz" hello_body) over_redis

respond-cases_example :
    (((is_public "/api/execute" ≡ true) ⊎ (no_header ≡ some secret))
      × Limited drawn over_memory
          (handle sample schema worker_schemas refused_query wholes time_zero drawn
            (execute hello_body)
            over_memory)
          (respond sample schema worker_schemas refused_query wholes time_zero
            (some secret)
            "/api/execute"
            none
            drawn
            (execute hello_body)
            over_memory))
    ⊎ (¬ ((is_public "/api/execute" ≡ true) ⊎ (no_header ≡ some secret))
        × (respond sample schema worker_schemas refused_query wholes time_zero
              (some secret)
              "/api/execute"
              none
              drawn
              (execute hello_body)
              over_memory
            ≡ (ok (denied 401 "Unauthorized"), over_memory)))
respond-cases_example =
    respond-cases sample schema worker_schemas refused_query wholes time_zero secret "/api/execute"
      none refl drawn (execute hello_body) over_memory

-- the submission without the key is the second case
no_key :
    (respond sample schema worker_schemas refused_query wholes time_zero
      (some secret)
      "/api/execute"
      none
      drawn
      (execute hello_body)
      over_memory).1
    ≡ over_memory
unfolding respond is_public call authorize
no_key = refl
