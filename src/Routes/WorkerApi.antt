-- ===== src/Routes/WorkerApi.antt =====
-- api/src/routes/worker-api.ts: a worker asks for a job, reports its result, and sends heartbeats.
pub mod Laws
use codehive.Routes.Execute.{parsed_body}
use codehive.Queue.Service.{get_job, update_job, dequeue}
use codehive.Executor.Run.{no_updates}
use codehive.Http.{ok_true, job, empty, failure, guarded, reply, Reply}
use codehive.Queue.Memory.{job_not_found, JobUpdates}
use codehive.Errors.{Details}
use codehive.Prelude.Int.{ℤ}
use codehive.Queue.Platform.{Platform}
use codehive.Queue.World.{load, Action, Ref}
use codehive.Types.{running, queued, Job, ExecutionResult, WorkerStatus, Status}
use codehive.Prelude.{some, true, List, none, ◌≡◌, false, ℕ, Bool, Option, String}
use Prim.Native.String.{◌++◌ as str_append}
use codehive.Prelude.Exec.{pure, ok, Result, ◌>>=◌, ◌>>◌}

-- what `heartbeatSchema` leaves of a body; no route reads its fields, and `cpus` and `memory` stand for
-- whole numbers only
pub record Heartbeat : Type 0 where
  pub hostname : String
  pub status : WorkerStatus
  pub cpus : ℕ
  pub memory : ℕ
  pub labels : Option (List (String × String))

-- what `resultSchema` leaves of a body
pub record Report : Type 0 where
  pub stdout : String
  pub stderr : String
  pub exit_code : Option ℤ
  pub status : Status
  pub started_at : String
  pub finished_at : String

-- `z.enum(['completed', 'failed', 'timeout'])`
abbrev pub has_ended : Status → Bool
has_ended queued = false
has_ended running = false
has_ended _ = true

-- `safeParse` of the two schemas: zod accepts a status only if the schema lists it
pub record WorkerSchemas (B : Type 0) : Type 0 where
  pub parse_heartbeat : B → Result Details Heartbeat
  pub parse_report : B → Result Details Report
  pub status_ended : (b : B) (r : Report) → parse_report b ≡ ok r → has_ended r.status ≡ true

-- `{ workerId, status: 'running' }`
abbrev pub claim : String → JobUpdates
claim worker = record no_updates { worker_id = some (some worker); status = some running }

-- `{ id: jobId, stdout, stderr, exitCode, status, startedAt, finishedAt }`
abbrev pub reported : String → Report → ExecutionResult
reported id r = record {
  id = id;
  status = r.status;
  stdout = r.stdout;
  stderr = r.stderr;
  exit_code = r.exit_code;
  language = none;
  started_at = some r.started_at;
  finished_at = some r.finished_at;
  error = none;
  duration_ms = none;
}

-- `{ status, result, workerId: null }`
abbrev pub settle : String → Report → JobUpdates
settle id r = record no_updates {
  status = some r.status;
  result = some (some (reported id r));
  worker_id = some none;
}

-- `reply.code(404).send({ error: 'NotFound', message: … })`
abbrev pub unknown_job : String → Reply
unknown_job id =
    reply 404 (failure (record { error = "NotFound"; message = job_not_found id; details = none }))

-- `reply.send(job)`, of the object as it is then
abbrev pub job_reply : Option Job → Reply
job_reply none = reply 500 empty
job_reply (some j) = reply 200 (job j)

abbrev pub send_job : {S : Type 0} → Ref → Action S Reply
send_job r w = (ok (job_reply (load w r)), w)

module _ {S V : Type 0} (P : Platform S V) where
  -- `job.id` of the object
  abbrev pub claim_object : String → String → Ref → Option Job → Action S Reply
  claim_object now worker r none = pure (reply 500 empty)
  claim_object now worker r (some j) = update_job P now j.id (claim worker) >> send_job r

  abbrev pub claim_found : String → String → Option Ref → Action S Reply
  claim_found now worker none w = (ok (reply 204 empty), w)
  claim_found now worker (some r) w = claim_object now worker r (load w r) w

  -- `GET /api/workers/:id/jobs/next`
  unfoldable pub next_job : String → String → Action S Reply
  next_job now worker = guarded (do found ← dequeue P; claim_found now worker found)

  abbrev pub settle_found : String → String → Report → Option Ref → Action S Reply
  settle_found now id r none w = (ok (unknown_job id), w)
  settle_found now id r (some q) w =
      (update_job P now id (settle id r) >> pure (reply 200 ok_true)) w

module _ {S V B : Type 0} (P : Platform S V) (Z : WorkerSchemas B) where
  -- `POST /api/workers/:id/jobs/:jobId/result`; the worker's identifier is not read
  unfoldable pub post_result : String → String → B → Action S Reply
  post_result now id body = guarded (do
    r ← parsed_body "Invalid result" (Z.parse_report body)
    found ← get_job P id
    settle_found P now id r found)

  -- `POST /api/workers/:id/heartbeat`
  unfoldable pub post_heartbeat : B → Action S Reply
  post_heartbeat body =
      guarded
        (do _ ← parsed_body "Invalid heartbeat" (Z.parse_heartbeat body); pure (reply 200 ok_true))
