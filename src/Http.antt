-- ===== src/Http.antt =====
-- Replies of the Fastify routes (api/src/routes): a status code and the JSON body that is sent.
use codehive.Types.{WorkerInfo, HealthStatus, Job, ExecutionResult, Status}
use codehive.Queue.World.{Action}
use codehive.Prelude.{List, String, ℕ}
use codehive.Errors.{send_error, Error, ErrorBody}
use codehive.Prelude.Exec.{pure, try_catch}

pub data Body : Type 0 where
  failure : ErrorBody → Body
  accepted : String → Status → String → Body
  result : ExecutionResult → Body
  job : Job → Body
  jobs : List Job → ℕ → Body
  health : HealthStatus → Body
  workers : List WorkerInfo → Body
  worker : WorkerInfo → Body
  ok_true : Body
  -- `send()` with no value
  empty : Body

pub record Reply : Type 0 where
  pub code : ℕ
  pub body : Body

abbrev pub reply : ℕ → Body → Reply
reply code body = record { code = code; body = body }

-- `sendError(reply, err)`
abbrev pub error_reply : Error → Reply
error_reply e = reply (send_error e).0 (failure (send_error e).1)

-- `try … catch (err) { return sendError(reply, err) }`
abbrev pub guarded : {S : Type 0} → Action S Reply → Action S Reply
guarded handler = try_catch handler (λ e. pure (error_reply e))
