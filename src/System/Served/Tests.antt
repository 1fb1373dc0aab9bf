-- ===== src/System/Served/Tests.antt =====
-- A process that answers requests, at concrete inputs.
use codehive.Prelude.{◌≡◌, ℕ, String, none, refl, inl, ◌≢◌}
use codehive.Prelude.Exec.{ok, throw, Result}
use codehive.Errors.{Error, plain}
use codehive.Http.{reply, job}
use codehive.Types.{Job}
use codehive.Queue.World.{World}
use codehive.Prelude.Dict
use codehive.Executor.Languages.{includes}
use codehive.Auth.{authorize, on_request}
use codehive.Routes.Execute.{get_status}
use codehive.Routes.Requests.{handle}
use codehive.Queue.Memory.{assign, mem_get_job, mem_enqueue, mem_dequeue}
use codehive.Queue.Sample.{sample, Store, no_store}
use codehive.Queue.Service.{fresh_job, dequeue, enqueue, get_job, update_job}
use codehive.Queue.Spec.Agree.{started}
use codehive.Routes.Tests.{schema, worker_schemas, Sent, hello_body}
use codehive.Routes.Stats.Tests.{wholes}
use codehive.Routes.Execute.{request_of, post_execute}
use codehive.Routes.WorkerApi.{next_job, claim}
use codehive.Routes.Requests.{Request, Draws, respond, execute, status}
use codehive.Routes.Execute.Begun.{mark}
use codehive.System.{Boots, Reach}
use codehive.System.Served.{ServesOn, ServesOn-Reach, started_up, answered, IsNew}
use codehive.System.HandedOut.{workers_apart}

abbrev drawn : String → String → Draws
drawn id now = record {
  id = id;
  now = now;
  marked_at = now;
  uptime = 7;
  day_ago = "t0";
  week_ago = "t0";
  refusal = none;
  print = λ n. "10";
}

abbrev no_query : String → Result Error ℕ
no_query text = throw (plain "ECONNREFUSED")

abbrev time_zero : String → ℕ
time_zero text = 0

abbrev answer_to : Draws → Request Sent → World Store → World Store
answer_to d q w =
    (respond sample schema worker_schemas no_query wholes time_zero none "/" none d q w).1

abbrev v0 : World Store
v0 = started none no_store

abbrev v1 : World Store
v1 = answer_to (drawn "a" "t0") (execute hello_body) v0

abbrev v2 : World Store
v2 = answer_to (drawn "b" "t1") (execute hello_body) v1

abbrev ServedOn : World Store → World Store → Type 0
ServedOn = ServesOn sample schema worker_schemas no_query wholes time_zero

IsNew-a : IsNew sample "a" v0
unfolding respond authorize on_request handle post_execute get_status next_job enqueue dequeue
    get_job update_job Dict.get Dict.put mem_get_job mem_enqueue mem_dequeue assign includes
IsNew-a = record { named = refl; unknown = refl }

IsNew-b : IsNew sample "b" v1
unfolding respond authorize on_request handle post_execute get_status next_job enqueue dequeue
    get_job update_job Dict.get Dict.put mem_get_job mem_enqueue mem_dequeue assign includes
IsNew-b = record { named = refl; unknown = refl }

two_accepted : ServedOn v0 v2
two_accepted =
    answered none none "/" (drawn "b" "t1") (execute hello_body)
      (answered none none "/" (drawn "a" "t0") (execute hello_body) started_up IsNew-a) IsNew-b

ServesOn-Reach_example : Reach sample v0 v2
ServesOn-Reach_example =
    ServesOn-Reach sample schema worker_schemas no_query wholes time_zero two_accepted

-- over memory the answer shows the claim
abbrev first_answer : Job
first_answer =
    assign (claim "w1") "t2" (assign mark "t0" (fresh_job "a" "t0" (request_of "python")))

abbrev second_answer : Job
second_answer =
    assign (claim "w2") "t4" (assign mark "t1" (fresh_job "b" "t1" (request_of "python")))

abbrev v3 : World Store
v3 = (next_job sample "t2" "w1" v2).1

abbrev v4 : World Store
v4 = answer_to (drawn "c" "t3") (status "a") v3

first_claims : (next_job sample "t2" "w1" v2).0 ≡ ok (reply 200 (job first_answer))
unfolding respond authorize on_request handle post_execute get_status next_job enqueue dequeue
    get_job update_job Dict.get Dict.put mem_get_job mem_enqueue mem_dequeue assign includes
first_claims = refl

second_claims : (next_job sample "t4" "w2" v4).0 ≡ ok (reply 200 (job second_answer))
unfolding respond authorize on_request handle post_execute get_status next_job enqueue dequeue
    get_job update_job Dict.get Dict.put mem_get_job mem_enqueue mem_dequeue assign includes
second_claims = refl

polled_between : ServedOn v3 v4
polled_between = answered none none "/" (drawn "c" "t3") (status "a") started_up tt

memory-Boots : Boots sample none no_store
memory-Boots = inl refl

workers_apart_example : second_answer.id ≢ first_answer.id
workers_apart_example =
    workers_apart sample schema worker_schemas no_query wholes time_zero none no_store memory-Boots
      two_accepted "t2" "w1" first_answer first_claims polled_between "t4" "w2" second_answer
      second_claims
