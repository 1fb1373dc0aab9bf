-- ===== src/Routes/Polling.antt =====
-- What a client that polls `GET /api/status/:id` sees of a submission and of its run.
use codehive.Queue.Service.{fresh_job, chosen}
use codehive.Queue.Memory.{assign}
use codehive.Executor.Languages.{supported, includes}
use codehive.Executor.Process.{run_process, ProcResult}
use codehive.Prelude.Exec.{ok}
use codehive.Http.{result, reply}
use codehive.Queue.Spec.Serves.{Serves}
use codehive.Queue.World.{World}
use codehive.Queue.Spec.{submit, spec_call, spec_write, Spec}
use codehive.Executor.Run.{finished, execute_job, process_events, prepared, Submitted, Host}
use codehive.Routes.Execute.{
  request_of, post_execute, get_status, result_of, CodeSubmission, SubmitSchema,
}
use codehive.Types.{running, queued, ExecutionResult, Job, Status}
use codehive.Queue.Platform.{Platform}
use codehive.Prelude.{
  refl, Bool, ap, inr, inl, ◌∙◌, if◌then◌else◌, true, eq_refl, false, some, ◌≡◌, none, str_eq,
  Option, String,
}
use codehive.Types.{ExecutionRequest}
use codehive.Routes.Execute.Begun.{begun, begun_job, job-begun}
use codehive.Routes.Execute.Laws.{get_status_lem, status_answer, post_execute-accepted}
use codehive.Executor.Memory.{running_job, with_result, execute_job-Implements}
use codehive.Executor.Redis.{execute_job-Stores_lost}
use codehive.Queue.Spec.Memory.{Implements}
use codehive.Queue.Spec.Redis.{Stores}

-- the result of a job that has none yet
abbrev pub blank_result : String → Status → ExecutionResult
blank_result id status = record {
  id = id;
  status = status;
  stdout = "";
  stderr = "";
  exit_code = none;
  language = none;
  started_at = none;
  finished_at = none;
  error = none;
  duration_ms = none;
}

-- the write of one identifier's job, read back
pub job-spec_write :
    (id : String) (f : Job → Job) (s : Spec) (job : Job)
    → s.job id ≡ some job
    → (spec_write id f s).job id ≡ some (f job)
job-spec_write id f s job e = rw (eq_refl id, e)

-- what is shown of a job that has just been submitted
result_of-begun :
    (redis : Bool) (at id now : String) (request : ExecutionRequest)
    → result_of (begun_job redis at (fresh_job id now request))
      ≡ blank_result id (if redis then queued else running)
unfolding assign
result_of-begun true at id now request = refl
result_of-begun false at id now request = refl

pub status_answer-known :
    (id : String) (o : Option Job) (job : Job)
    → str_eq id "" ≡ false
    → o ≡ some job
    → status_answer id o ≡ reply 200 (result (result_of job))
status_answer-known id o job n e = rw (n, e)

module _ {S V B : Type 0} (P : Platform S V) (Z : SubmitSchema B) {w : World S} {s : Spec}
    (h : Serves P w s) where
  -- A submission that the schema accepts, with a supported language and under an identifier that is not
  -- empty, is polled at once, before its run makes its next step: it is shown with empty output, over Redis
  -- as `queued` and over memory already as `running`.
  pub submitted_then_polled :
      (id now at : String) (body : B) (c : CodeSubmission)
      → Z.safe_parse body ≡ ok c
      → includes supported c.language ≡ true
      → str_eq id "" ≡ false
      → (get_status P id (post_execute P Z id now at body w).1).0
        ≡ ok (reply 200 (result (blank_result id (if chosen w then queued else running))))
  unfolding assign
  submitted_then_polled id now at body c p i n =
      let (_, next) = post_execute-accepted P Z h id now at body c p i n in
      let s' = (spec_call (submit id now (request_of c.language)) s).1 in
      let job = fresh_job id now (request_of c.language) in
      (get_status_lem P next id).0
      ∙ ap ok (
          status_answer-known id ((begun (chosen w) at id s').job id) (begun_job (chosen w) at job)
            n (job-begun (chosen w) at id s' job (unfold spec_call in rw (eq_refl id)))
          ∙ ap (λ r. reply 200 (result r))
              (result_of-begun (chosen w) at id now (request_of c.language)))

module _ {S V : Type 0} (P : Platform S V) (H : Host) (a : Submitted) {w : World S} {s : Spec}
    (job : Job) (known : s.job a.id ≡ some job) (new : job.result ≡ none)
    (named : str_eq a.id "" ≡ false) (same : job.id ≡ a.id) (dir : String) (r : ProcResult)
    (d : H.make_dir ≡ ok dir) (p : prepared H a dir ≡ ok tt)
    (q : run_process H.decode (process_events H a dir) ≡ some r) where
  polled_memory :
      Implements w s
      → (get_status P a.id (execute_job P H a w).1).0 ≡ ok (reply 200 (result (finished H a r)))
  polled_memory h =
      let (_, next) = execute_job-Implements P H a h job known dir r d p q in
      (get_status_lem P (inl next) a.id).0
      ∙ ap ok (
          status_answer-known a.id _ (with_result (finished H a r) (running_job H job)) named (
            job-spec_write a.id (with_result (finished H a r)) (spec_write a.id (running_job H) s)
              (running_job H job) (job-spec_write a.id (running_job H) s job known)))

  polled_redis :
      Stores P w s
      → (get_status P a.id (execute_job P H a w).1).0
        ≡ ok (reply 200 (result (blank_result a.id running)))
  unfolding assign
  polled_redis h =
      let out_ = execute_job-Stores_lost P H a h job known dir r d p q in
      (get_status_lem P (inr out_.1) a.id).0
      ∙ ap ok (
          status_answer-known a.id _ (running_job H job) named
            (job-spec_write a.id (running_job H) s job known)
          ∙ simp (new, same))

  -- A job is stored without a result, under its own identifier, which is not empty; the directory and
  -- the file can be made, the compiler succeeds and the process has a result. When `executeJob` has
  -- ended, a client that polls sees that result where the queue is in memory, and over Redis still a
  -- `running` job with empty output.
  pub polled_after_run :
      Serves P w s
      → (get_status P a.id (execute_job P H a w).1).0
        ≡ ok (reply 200 (result (if chosen w then blank_result a.id running else finished H a r)))
  polled_after_run (inl h) = rw h.backend (polled_memory h)
  polled_after_run (inr h) = rw h.backend (polled_redis h)
