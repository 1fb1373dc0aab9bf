-- ===== src/Routes/Execute/Begun.antt =====
-- The start of a run in api/src/routes/execute.ts, before the reply to the submission is sent.
use codehive.Queue.Spec.Redis.Relation.{Stores}
use codehive.Queue.Spec.Memory.Relation.{Implements}
use codehive.Queue.Spec.Memory.Calls.{call-Implements, update_job-Implements}
use codehive.Queue.Spec.Memory.Effects.{change_state}
use codehive.Queue.Spec.Redis.Calls.{call-Stores, look_up-Stores}
use codehive.Prelude.Exec.{pure, caught, ok}
use codehive.Queue.Spec.Serves.{Serves}
use codehive.Queue.World.{World}
use codehive.Types.{running, ExecutionRequest, Job}
use codehive.Queue.Spec.{spec_call, submit, call, spec_write, Spec}
use codehive.Queue.Service.{update_job, enqueue, chosen, get_redis, use_redis}
use codehive.Executor.Run.{no_updates}
use codehive.Queue.Platform.{Platform}
use codehive.Prelude.{
  sym, ◌∙◌, inl, inr, refl, eq_refl, false, true, str_eq, ◌≡◌, if◌then◌else◌, some, String, Bool,
}
use codehive.Queue.Memory.{assign, JobUpdates}
use codehive.Routes.Execute.{begin_run}

-- the update that a run begins with
abbrev pub mark : JobUpdates
mark = record no_updates { status = some running }

-- the jobs when a run has begun: over memory its job is marked
abbrev pub begun : Bool → String → String → Spec → Spec
begun redis at id s = if redis then s else spec_write id (assign mark at) s

abbrev pub begun_job : Bool → String → Job → Job
begun_job redis at job = if redis then job else assign mark at job

module _ {S V : Type 0} (P : Platform S V) where
  pub begin_run-redis :
      (at id : String) (w : World S) → chosen w ≡ true → begin_run at id w ≡ (ok tt, get_redis w)
  unfolding begin_run use_redis get_redis
  begin_run-redis at id w r = rw r refl

  pub begin_run-memory :
      (at id : String) (w : World S)
      → chosen w ≡ false
      → begin_run at id w
        ≡ caught (update_job P at id mark w).0 (λ e. pure tt) (update_job P at id mark w).1
  unfolding begin_run use_redis get_redis
  begin_run-memory at id w m = rw (change_state P w m at id mark, m) refl

  pub begin_run-Serves :
      (at id : String) {w : World S} {s : Spec} (job : Job)
      → s.job id ≡ some job
      → Serves P w s
      → ((begin_run at id w).0 ≡ ok tt) × Serves P (begin_run at id w).1 (begun (chosen w) at id s)
  begin_run-Serves at id {w} job e (inr h) =
      rw (begin_run-redis at id w h.backend, h.backend) (refl, inr (look_up-Stores P h))
  begin_run-Serves at id {w} job e (inl h) =
      let (returned, next) = update_job-Implements P h at id mark job e in
      rw (begin_run-memory at id w h.backend, h.backend, returned) (refl, inl next)

  -- a submission keeps the backend
  pub enqueue-chosen :
      (id now : String) (request : ExecutionRequest) {w : World S} {s : Spec}
      → str_eq id "" ≡ false
      → Serves P w s
      → chosen (enqueue P id now request w).1 ≡ chosen w
  enqueue-chosen id now request {w} {s} n (inl h) =
      let next : Implements (enqueue P id now request w).1 (spec_call (submit id now request) s).1 =
        (unfold call in (call-Implements P h (submit id now request) n).1) in
      next.backend ∙ sym h.backend
  enqueue-chosen id now request {w} {s} n (inr h) =
      let next : Stores P (enqueue P id now request w).1 (spec_call (submit id now request) s).1 =
        (unfold call in (call-Stores P h (submit id now request) n).1) in
      next.backend ∙ sym h.backend

pub begun-pending :
    (redis : Bool) (at id : String) (s : Spec) → (begun redis at id s).pending ≡ s.pending
begun-pending true at id s = refl
begun-pending false at id s = refl

pub job-begun :
    (redis : Bool) (at id : String) (s : Spec) (job : Job)
    → s.job id ≡ some job
    → (begun redis at id s).job id ≡ some (begun_job redis at job)
job-begun true at id s job e = e
job-begun false at id s job e = rw (eq_refl id, e)

pub id-begun_job : (redis : Bool) (at : String) (job : Job) → (begun_job redis at job).id ≡ job.id
unfolding assign
id-begun_job true at job = refl
id-begun_job false at job = refl
