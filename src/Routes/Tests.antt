-- ===== src/Routes/Tests.antt =====
-- The theorems on the routes at concrete inputs.
use codehive.Routes.Execute.Begun.{begun}
use codehive.Routes.WorkerRun.{worker_report-polled}
use codehive.Queue.Memory.{assign}
use codehive.Routes.Polling.{polled_after_run, submitted_then_polled, blank_result}
use codehive.Routes.WorkerApi.Laws.{next_job-claims, without_first}
use codehive.Types.{ExecutionResult, running, queued, completed}
use codehive.Prelude.Int.{pos}
use codehive.Queue.Spec.Agree.{started-Implements, no_jobs, started}
use codehive.Executor.Run.{finished, execute_job}
use codehive.Routes.Execute.Laws.{
  post_execute-accepted, post_execute-refused, get_status_lem, status_answer, unsupported, refusal,
}
use codehive.Queue.Service.{enqueue, chosen, get_redis, health_check}
use codehive.Routes.Health.{health_reply, get_health}
use codehive.Http.{result, accepted, reply, error_reply, Reply}
use codehive.Prelude.{
  if◌then◌else◌, arith, false, refl, true, str_eq, [], some, inr, inl, ◌∷◌, none, ◌≡◌, String,
}
use codehive.Routes.WorkerApi.{
  reported, claim, has_ended, job_reply, post_result, WorkerSchemas, Report, next_job,
}
use codehive.Queue.Spec.{call, submit, spec_write, spec_call}
use codehive.Executor.Languages.{supported, includes}
use codehive.Queue.Spec.Serves.{Serves}
use codehive.Prelude.Exec.{throw, ok, Result}
use codehive.Errors.{app, plain, Error, Details}
use codehive.Routes.Execute.{
  request_of, background, FitsTimeout, get_status, post_execute, SubmitSchema, CodeSubmission,
}
use codehive.Queue.Sample.{sample, no_store}
use codehive.Executor.Tests.{
  over_memory, over_memory-Implements, over_redis, over_redis-Stores, stored, job_a, known_a,
  machine, run_a, said_hello, hello_runs, is_prepared,
}

abbrev hello_code : CodeSubmission
hello_code = record { language = "python"; code = "print('hello')"; stdin = none; timeout = some 5 }

abbrev bad_code : CodeSubmission
bad_code = record hello_code { language = "cobol" }

abbrev issues : Details
issues = ("code", "Required" ∷ []) ∷ []

-- three bodies
pub data Sent : Type 0 where
  hello_body cobol_body broken_body : Sent

abbrev parse_sent : Sent → Result Details CodeSubmission
parse_sent hello_body = ok hello_code
parse_sent cobol_body = ok bad_code
parse_sent broken_body = throw issues

pub sent_language :
    (b : Sent) (c : CodeSubmission) → parse_sent b ≡ ok c → str_eq c.language "" ≡ false
sent_language hello_body c e = let same : hello_code ≡ c = cc in rw (← same)
sent_language cobol_body c e = let same : bad_code ≡ c = cc in rw (← same)
sent_language broken_body c e = cc

pub sent_code : (b : Sent) (c : CodeSubmission) → parse_sent b ≡ ok c → str_eq c.code "" ≡ false
sent_code hello_body c e = let same : hello_code ≡ c = cc in rw (← same)
sent_code cobol_body c e = let same : bad_code ≡ c = cc in rw (← same)
sent_code broken_body c e = cc

pub sent_timeout : (b : Sent) (c : CodeSubmission) → parse_sent b ≡ ok c → FitsTimeout c.timeout
sent_timeout hello_body c e = let same : hello_code ≡ c = cc in rw (← same) (omega arith)
sent_timeout cobol_body c e = let same : bad_code ≡ c = cc in rw (← same) (omega arith)
sent_timeout broken_body c e = absurd (cc)

abbrev pub schema : SubmitSchema Sent
schema = record {
  safe_parse = parse_sent;
  language_given = sent_language;
  code_given = sent_code;
  timeout_fits = sent_timeout;
}

over_memory-Serves : Serves sample over_memory stored
over_memory-Serves = inl over_memory-Implements

over_redis-Serves : Serves sample over_redis stored
over_redis-Serves = inr over_redis-Stores

python_known : includes supported "python" ≡ true
unfolding includes
python_known = refl

cobol_unknown : refusal (parse_sent cobol_body) ≡ some (unsupported bad_code)
unfolding includes
cobol_unknown = refl

post_execute-refused_example :
    (post_execute sample schema "b" "t5" "t6" cobol_body over_memory
      ≡ (ok (error_reply (app (unsupported bad_code)), none), over_memory))
    × ((error_reply (app (unsupported bad_code))).code ≡ 400)
post_execute-refused_example =
    post_execute-refused sample schema over_memory-Serves "b" "t5" "t6" cobol_body
      (unsupported bad_code) cobol_unknown

post_execute-accepted_example :
    ((post_execute sample schema "b" "t5" "t6" hello_body over_redis).0
      ≡ ok (reply 202 (accepted "b" queued "python"), some (background "b" hello_code)))
    × Serves sample (post_execute sample schema "b" "t5" "t6" hello_body over_redis).1 (
        begun
          (chosen over_redis)
          "t6"
          "b"
          (spec_call (submit "b" "t5" (request_of "python")) stored).1)
post_execute-accepted_example =
    post_execute-accepted sample schema over_redis-Serves "b" "t5" "t6" hello_body hello_code refl
      python_known refl

get_status_lem_example :
    ((get_status sample "zz" over_redis).0 ≡ ok (status_answer "zz" (stored.job "zz")))
    × Serves sample (get_status sample "zz" over_redis).1 stored
get_status_lem_example = get_status_lem sample over_redis-Serves "zz"

submitted_then_polled_example :
    (get_status sample "b" (post_execute sample schema "b" "t5" "t6" hello_body over_redis).1).0
    ≡ ok (reply 200 (result (blank_result "b" (if chosen over_redis then queued else running))))
submitted_then_polled_example =
    submitted_then_polled sample schema over_redis-Serves "b" "t5" "t6" hello_body hello_code refl
      python_known refl

polled_after_run_example :
    (get_status sample "a" (execute_job sample machine run_a over_redis).1).0
    ≡ ok (
        reply 200 (
          result (
            if chosen over_redis
            then blank_result "a" running
            else finished machine run_a said_hello)))
polled_after_run_example =
    polled_after_run sample machine run_a job_a known_a refl refl refl "/tmp/ch-1" said_hello refl
      is_prepared hello_runs over_redis-Serves

first_is_a : stored.pending ≡ "a" ∷ []
unfolding spec_call
first_is_a = refl

next_job-claims_example :
    ((next_job sample "t3" "w1" over_memory).0
      ≡ ok
          (job_reply (some (if chosen over_memory then job_a else assign (claim "w1") "t3" job_a))))
    × Serves sample
        (next_job sample "t3" "w1" over_memory).1
        (spec_write "a" (assign (claim "w1") "t3") (without_first stored))
next_job-claims_example =
    next_job-claims sample "t3" "w1" over_memory-Serves job_a [] first_is_a known_a

started_memory : Serves sample (started none no_store) no_jobs
started_memory = inl (started-Implements none no_store refl)

abbrev done_report : Report
done_report = record {
  stdout = "hello";
  stderr = "";
  exit_code = some (pos 0);
  status = completed;
  started_at = "t1";
  finished_at = "t2";
}

abbrev parse_report_sent : Sent → Result Details Report
parse_report_sent hello_body = ok done_report
parse_report_sent _ = throw issues

pub report_ended : (b : Sent) (r : Report) → parse_report_sent b ≡ ok r → has_ended r.status ≡ true
report_ended hello_body r e = let same : done_report ≡ r = cc in rw (← same)
report_ended cobol_body r e = cc
report_ended broken_body r e = cc

abbrev pub worker_schemas : WorkerSchemas Sent
worker_schemas = record {
  parse_heartbeat = λ b. throw issues;
  parse_report = parse_report_sent;
  status_ended = report_ended;
}

unknown_z : stored.job "z" ≡ none
unfolding spec_call
unknown_z = refl

abbrev no_database : String → Result Error (Unit {0})
no_database sql = throw (plain "ECONNREFUSED")

abbrev healthy : Reply
healthy = health_reply 7 "t9" false true

health_runs : (get_health sample no_database 7 "t9" over_redis).0 ≡ ok healthy
unfolding get_health health_check get_redis call enqueue
health_runs = refl

worker_report-polled_example :
    (get_status sample "b"
      (post_result sample worker_schemas "t3" "b" hello_body
        (next_job sample "t2" "w1"
          (post_execute sample schema "b" "t1" "t1" hello_body (started none no_store)).1).1).1).0
    ≡ ok (reply 200 (result (reported "b" done_report)))
worker_report-polled_example =
    worker_report-polled sample schema worker_schemas started_memory "b" "w1" "t1" "t1" "t2" "t3"
      hello_body hello_body hello_code done_report refl python_known refl refl refl

abbrev done_result : ExecutionResult
done_result = reported "a" done_report
