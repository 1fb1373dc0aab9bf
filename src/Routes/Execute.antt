-- ===== src/Routes/Execute.antt =====
-- api/src/routes/execute.ts: `POST /api/execute` and `GET /api/status/:id`. A submission starts `executeJob`
-- of api/src/services/executor.ts without waiting for it: what that does up to its first `await` comes
-- before the reply, and the rest of it is a call of its own.
pub mod Begun
pub mod Laws
use codehive.Queue.Service.{get_job, enqueue, use_redis}
use codehive.Queue.Memory.{mem_update_job}
use codehive.Executor.Languages.{supported, includes}
use codehive.Http.{result, error_reply, accepted, empty, guarded, reply, Reply}
use codehive.Executor.Run.{Submitted, no_updates}
use codehive.Errors.{validation_error, not_found_error, app, Details}
use codehive.Types.{queued, running, ExecutionResult, ExecutionRequest, Job}
use codehive.Queue.Platform.{Platform}
use codehive.Queue.World.{load, Action, Ref}
use codehive.Prelude.{
  false, ◌≤◌, none, ◌∷◌, str_eq, ◌<◌, get_or, if◌then◌else◌, [], ◌≡◌, some, ℕ, Option, String,
}
use Prim.Native.String.{◌++◌ as str_append}
use codehive.Prelude.Exec.{throw, pure, raise, try_catch, ok, Result, ◌>>=◌, ◌>>◌}

-- what `codeSubmitSchema` leaves of a body
pub record CodeSubmission : Type 0 where
  pub language : String
  pub code : String
  pub stdin : Option String
  pub timeout : Option ℕ

abbrev pub FitsTimeout : Option ℕ → Type 0
FitsTimeout none = Unit
FitsTimeout (some t) = (0 < t) × (t ≤ 3600)

-- `codeSubmitSchema.safeParse`: zod accepts a body only with the fields that the schema asks for
pub record SubmitSchema (B : Type 0) : Type 0 where
  pub safe_parse : B → Result Details CodeSubmission
  pub language_given :
      (b : B) (c : CodeSubmission) → safe_parse b ≡ ok c → str_eq c.language "" ≡ false
  pub code_given : (b : B) (c : CodeSubmission) → safe_parse b ≡ ok c → str_eq c.code "" ≡ false
  pub timeout_fits : (b : B) (c : CodeSubmission) → safe_parse b ≡ ok c → FitsTimeout c.timeout

-- `{ image: '', cmd: [], env: { CODEHIVE_LANG: language } }`
abbrev pub request_of : String → ExecutionRequest
request_of language = record {
  image = "";
  cmd = [];
  env = some (("CODEHIVE_LANG", language) ∷ []);
  timeout = none;
  memory = none;
  cpus = none;
}

-- the call of `executeJob` that goes on in the background
abbrev pub background : String → CodeSubmission → Submitted
background id c = record {
  id = id;
  language = c.language;
  code = c.code;
  stdin = c.stdin;
  timeout_sec = c.timeout;
}

-- `if (!parsed.success) throw …`
abbrev pub parsed_body : {S A : Type 0} → String → Result Details A → Action S A
parsed_body text (ok c) = pure c
parsed_body text (throw details) = raise (app (validation_error text (some details)))

-- `reply.code(202).send({ id: job.id, status: 'queued', language })`, of the object that `enqueue` made
abbrev pub accepted_reply : Option Job → CodeSubmission → Reply × Option Submitted
accepted_reply none c = (reply 500 empty, none)
accepted_reply (some job) c =
    (reply 202 (accepted job.id queued c.language), some (background job.id c))

module _ {S : Type 0} where
  -- `updateJob(jobId, { status: 'running' })` up to its first `await`, of a call of `executeJob` whose
  -- rejection is only logged. Over memory the job is changed; over Redis the first command is under way,
  -- which is the GET of `updateJob`.
  unfoldable pub begin_run : String → String → Action S (Unit {0})
  unfolding use_redis mem_update_job
  begin_run at id =
      try_catch
        (do
          b ← use_redis
          if b then pure tt else mem_update_job id (record no_updates { status = some running }) at)
        (λ e. pure tt)

  -- `executeJob(job.id, …)` and the reply, of the object that `enqueue` made; `updateJob` does not set `id`
  abbrev pub started_run :
      String → CodeSubmission → Option Job → Action S (Reply × Option Submitted)
  started_run at c none = pure (accepted_reply none c)
  started_run at c (some job) = do begin_run at job.id; pure (accepted_reply (some job) c)

  abbrev pub sent : String → Ref → CodeSubmission → Action S (Reply × Option Submitted)
  sent at r c w = started_run at c (load w r) w

module _ {S V B : Type 0} (P : Platform S V) (Z : SubmitSchema B) where
  -- The `try` block: the reply and the job whose run goes on in the background. `id` and `now` are drawn
  -- by `enqueue`, and `at` by the `updateJob` that the run begins with.
  abbrev pub submit_body : String → String → String → B → Action S (Reply × Option Submitted)
  submit_body id now at body = do
    c ← parsed_body "Invalid request" (Z.safe_parse body)
    if includes supported c.language
        then pure tt
        else raise (app (validation_error (str_append "Unsupported language: " c.language) none))
    r ← enqueue P id now (request_of c.language)
    sent at r c

  unfoldable pub post_execute : String → String → String → B → Action S (Reply × Option Submitted)
  unfolding begin_run
  post_execute id now at body =
      try_catch (submit_body id now at body) (λ e. pure (error_reply e, none))

-- the body of `GET /api/status/:id` for a job
abbrev pub result_of : Job → ExecutionResult
result_of job = get_or job.result (record {
  id = job.id;
  status = job.status;
  stdout = "";
  stderr = "";
  exit_code = none;
  language = none;
  started_at = none;
  finished_at = none;
  error = none;
  duration_ms = none;
})

abbrev pub status_reply : Option Job → Reply
status_reply none = reply 500 empty
status_reply (some job) = reply 200 (result (result_of job))

module _ {S V : Type 0} (P : Platform S V) where
  abbrev pub found_status : String → Option Ref → Action S Reply
  found_status id none w = raise (app (not_found_error "Job" id)) w
  found_status id (some r) w = (ok (status_reply (load w r)), w)

  unfoldable pub get_status : String → Action S Reply
  get_status id = guarded (
      if str_eq id ""
      then raise (app (validation_error "Missing job id" none))
      else (do found ← get_job P id; found_status id found))
