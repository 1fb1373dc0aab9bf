-- ===== src/System.antt =====
-- The server process over time: the calls that the routes of api/src/routes and `executeJob` of
-- api/src/services/executor.ts make, by anyone and in any order. A call of api/src/services/queue.ts is
-- one step, so that handlers and runs may interleave between any two of their calls. `updateJob` over Redis
-- is a GET and a SET: where other calls come between these, it is two steps. Every command is answered here,
-- and no MULTI is executed twice; Commands takes the commands of all calls apart, and loses some.
pub mod Changes
pub mod Kept
pub mod Formed
pub mod Lasting
pub mod Simulates
pub mod Safety
pub mod Polls
pub mod Turns
pub mod Shown
pub mod Requests
pub mod Served
pub mod HandedOut
mod Tests
use codehive.Errors.{Error}
use codehive.Executor.Process.{ProcResult}
use codehive.Executor.Run.{record_failure, record_result, mark_running, Submitted, Host}
use codehive.Routes.WorkerApi.{settle, has_ended, Report, claim}
use codehive.Routes.Execute.{request_of}
use codehive.Queue.Spec.Agree.{IsFresh}
use codehive.Prelude.Exec.{ok}
use codehive.Types.{Job}
use codehive.System.Changes.{IsKept}
use codehive.Queue.Service.{
  chosen, job_key, update_job, dequeue, enqueue, get_job, names_redis, get_redis,
}
use codehive.Prelude.{none, some, true, ◌⊎◌, false, ◌≡◌, str_eq, Option, String}
use codehive.Queue.Platform.{Platform}
use codehive.Queue.World.{World}

module _ {S V : Type 0} (P : Platform S V) where
  -- One call, with the arguments that the code gives it. `randomUUID` draws an identifier that is not
  -- empty and names no job; zod has checked the status of a report.
  pub data Step (w : World S) : World S → Type 0 where
    -- `POST /api/execute`
    submitted :
        (id now language : String)
        → str_eq id "" ≡ false
        → (get_job P id w).0 ≡ ok none
        → Step w (enqueue P id now (request_of language) w).1
    -- `GET /api/workers/:id/jobs/next`
    taken : Step w (dequeue P w).1
    claimed : (now id worker : String) → Step w (update_job P now id (claim worker) w).1
    -- a read of one job, by any route
    looked_up : (id : String) → Step w (get_job P id w).1
    -- `getJobs`, `getJobCount` and `healthCheck`, which read, and make the Redis client where they are
    -- first
    connected : Step w (get_redis w)
    -- `POST /api/workers/:id/jobs/:jobId/result`
    settled :
        (now id : String) (r : Report)
        → has_ended r.status ≡ true
        → Step w (update_job P now id (settle id r) w).1
    -- the three writes of `executeJob`
    marked : (H : Host) (a : Submitted) → Step w (mark_running P H a w).1
    recorded : (H : Host) (a : Submitted) (r : ProcResult) → Step w (record_result P H a r w).1
    failed : (H : Host) (a : Submitted) (e : Error) → Step w (record_failure P H a e w).1
    -- The SET of `updateJob` over Redis, with other calls between it and its GET, which is a step that looks
    -- a job up: a changed copy of the job as it was then. It may be any job that the code keeps under the
    -- identifier.
    rewritten :
        (id : String) (j : Job) (text : V)
        → chosen w ≡ true
        → P.get (job_key id) w.server ≡ some text
        → IsKept id j
        → Step w (record w { server = P.set (job_key id) (P.stringify j) w.server })

  -- an update that no other call divides
  abbrev pub IsUndivided : {w v : World S} → Step w v → Type 0
  IsUndivided (rewritten id j text r there good) = ⊥
  IsUndivided _ = Unit

  pub data Reach (w : World S) : World S → Type 0 where
    here : Reach w w
    later : {u v : World S} → Reach w u → Step u v → Reach w v

  abbrev pub Undivided : {w v : World S} → Reach w v → Type 0
  Undivided here = Unit
  Undivided (later before st) = Undivided before × IsUndivided st

  -- a server process that starts without a Redis host, or with one that holds nothing for the queue
  abbrev pub Boots : Option String → S → Type 0
  Boots host server = (names_redis host ≡ false) ⊎ ((names_redis host ≡ true) × IsFresh P server)
