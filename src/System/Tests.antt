-- ===== src/System/Tests.antt =====
-- The server process at a concrete run: a job is submitted, handed out and reported on.
use codehive.System.Turns.{handed_out_in_turn}
use codehive.Dashboard.Stores.{Execution}
use codehive.System.Shown.{page_shows_result, Delivers}
use codehive.Dashboard.Page.{poll}
use codehive.Errors.{Error}
use codehive.Dashboard.Page.Poll.{Finds}
use codehive.Dashboard.Client.{execution_received, Response, get_execution, Init, Printing}
use codehive.Routes.Polling.{blank_result}
use codehive.Prelude.Dict
use codehive.Http.{Body, Reply, result, reply}
use codehive.Prelude.Exec.{throw, Result, ok}
use codehive.Queue.Spec.{call}
use codehive.Prelude.Int.{pos}
use codehive.Queue.Spec.Agree.{started}
use codehive.Queue.Memory.{mem_get_job}
use codehive.Types.{queued, completed, Job, ExecutionResult}
use codehive.Routes.Execute.{request_of, get_status}
use codehive.Prelude.{
  ◌==◌, str_eq, if◌then◌else◌, arith, zero, Option, suc, ℕ, true, inl, refl, ◌≡◌, none, some, ◌≢◌,
  String,
}
use codehive.Queue.Service.{get_redis, fresh_job, update_job, dequeue, enqueue, get_job}
use codehive.Queue.Sample.{no_store, Store, sample}
use codehive.Routes.WorkerApi.{has_ended, claim, settle, reported, Report}
use codehive.Queue.World.{load, World}
use codehive.System.{Reach, Step, Boots}
use codehive.System.Safety.{Sound, Reach-Sound}
use codehive.System.Polls.{ended_stays}

abbrev w0 : World Store
w0 = started none no_store

abbrev w1 : World Store
w1 = (enqueue sample "a" "t0" (request_of "python") w0).1

abbrev w2 : World Store
w2 = (dequeue sample w1).1

abbrev w3 : World Store
w3 = (enqueue sample "b" "t1" (request_of "go") w2).1

abbrev ended : Report
ended = record {
  stdout = "hello";
  stderr = "";
  exit_code = some (pos 0);
  status = completed;
  started_at = "t1";
  finished_at = "t2";
}

abbrev w4 : World Store
w4 = (update_job sample "t3" "a" (settle "a" ended) w3).1

-- a second worker claims the job that has ended
abbrev w5 : World Store
w5 = (update_job sample "t4" "a" (claim "w2") w4).1

boots : Boots sample none no_store
boots = inl refl

a_is_new : (get_job sample "a" w0).0 ≡ ok none
unfolding get_job mem_get_job Dict.get get_redis Dict.put
a_is_new = refl

b_is_new : (get_job sample "b" w2).0 ≡ ok none
unfolding get_job mem_get_job Dict.get get_redis enqueue dequeue Dict.put
b_is_new = refl

reach_w1 : Reach sample w0 w1
reach_w1 = Reach.later Reach.here (Step.submitted "a" "t0" "python" refl a_is_new)

reach_w3 : Reach sample w2 w3
reach_w3 = Reach.later Reach.here (Step.submitted "b" "t1" "go" refl b_is_new)

reach_w4 : Reach sample w0 w4
reach_w4 =
    Reach.later
      (Reach.later (Reach.later reach_w1 Step.taken) (Step.submitted "b" "t1" "go" refl b_is_new))
      (Step.settled "t3" "a" ended refl)

first_a : (dequeue sample w1).0 ≡ ok (some 0)
unfolding enqueue dequeue call Dict.get Dict.put
first_a = refl

second_b : (dequeue sample w3).0 ≡ ok (some 1)
unfolding enqueue dequeue call Dict.get Dict.put
second_b = refl

abbrev job_of : String → String → String → Job
job_of id now language = fresh_job id now (request_of language)

is_a : load w2 0 ≡ some (job_of "a" "t0" "python")
unfolding enqueue dequeue Dict.get Dict.put
is_a = refl

is_b : load (dequeue sample w3).1 1 ≡ some (job_of "b" "t1" "go")
unfolding enqueue dequeue Dict.get Dict.put
is_b = refl

abbrev w6 : World Store
w6 = (enqueue sample "c" "t5" (request_of "java") (dequeue sample w3).1).1

c_is_new : (get_job sample "c" (dequeue sample w3).1).0 ≡ ok none
unfolding get_job mem_get_job Dict.get get_redis enqueue dequeue Dict.put
c_is_new = refl

third_c : (dequeue sample w6).0 ≡ ok (some 2)
unfolding enqueue dequeue call Dict.get Dict.put
third_c = refl

is_c : load (dequeue sample w6).1 2 ≡ some (job_of "c" "t5" "java")
unfolding enqueue dequeue Dict.get Dict.put
is_c = refl

handed_out_in_turn_example : (job_of "c" "t5" "java").id ≢ "a"
handed_out_in_turn_example =
    handed_out_in_turn none no_store boots Reach.here "a" "t0" "python" (refl, a_is_new)
      (Reach.later Reach.here Step.taken) "b" "t1" "go" (refl, b_is_new) Reach.here 1 _ second_b
      is_b refl (Reach.later Reach.here (Step.submitted "c" "t5" "java" refl c_is_new)) 2 _ third_c
      is_c

polled_a : (get_status sample "a" w4).0 ≡ ok (reply 200 (result (reported "a" ended)))
unfolding get_status get_job update_job enqueue dequeue Dict.get Dict.put
polled_a = refl

ended_stays_example :
    (t : ExecutionResult) × ((get_status sample "a" w5).0 ≡ ok (reply 200 (result t)))
    × (t.id ≡ "a")
    × (has_ended t.status ≡ true)
ended_stays_example =
    ended_stays none no_store boots reach_w4 "a" (reported "a" ended) polled_a refl
      (Reach.later Reach.here (Step.claimed "t4" "a" "w2")) (tt, tt)

Reach-Sound_example : Sound sample w4
Reach-Sound_example = Reach-Sound none no_store boots reach_w4

-- the moments of the polls: the first before the worker's report, all others after it
abbrev moments : ℕ → World Store
moments zero = w1
moments (suc n) = w4

moments_go : (i : ℕ) → Reach sample (moments i) (moments (suc i))
moments_go zero =
    Reach.later
      (Reach.later (Reach.later Reach.here Step.taken) (Step.submitted "b" "t1" "go" refl b_is_new))
      (Step.settled "t3" "a" ended refl)
moments_go (suc i) = Reach.here

abbrev execution_in : Body → Result String Execution
execution_in (result r) = ok (execution_received r)
execution_in _ = throw "not an execution"

abbrev response_to : Result Error Reply → Result String (Response Execution)
response_to (throw e) = throw "closed"
response_to (ok r) = ok (record {
  is_ok = r.code == 200;
  status = r.code;
  status_text = "";
  text = none;
  json = execution_in r.body;
})

abbrev serve : ℕ → String → Option Init → Result String (Response Execution)
serve i path options =
    if str_eq path "/api/status/a"
    then response_to (get_status sample "a" (moments i)).0
    else throw "no route"

response_to-Delivers :
    (x : Result Error Reply) (r : ExecutionResult)
    → x ≡ ok (reply 200 (result r))
    → Delivers (response_to x) r
response_to-Delivers x r e = rw e (refl, refl)

queued_a : (get_status sample "a" w1).0 ≡ ok (reply 200 (result (blank_result "a" queued)))
unfolding get_status get_job enqueue Dict.get Dict.put
queued_a = refl

abbrev plain : Printing
plain = record { whole = λ n. "0"; fixed = λ n d k. "0" }

page_shows_result_example :
    Finds (λ exec. exec.id ≡ "a") 2 (poll (λ i. get_execution plain (serve i) "a"))
page_shows_result_example =
    page_shows_result none no_store plain serve "a" moments boots reach_w1 moments_go
      (λ i r e. response_to-Delivers (get_status sample "a" (moments i)).0 r e)
      (blank_result "a" queued) queued_a 1 (reported "a" ended) (omega arith) polled_a refl
