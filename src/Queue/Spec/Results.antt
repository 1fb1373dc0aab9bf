-- ===== src/Queue/Spec/Results.antt =====
-- `updateResult` of api/src/services/queue.ts over both backends.
use mathlib.Core.Path.{subst}
use codehive.Errors.{plain}
use codehive.Queue.Spec.Serves.{get_job-Serves, Serves}
use codehive.Queue.Spec.Redis.Calls.{look_up_loaded, stored-Stores}
use codehive.Queue.Memory.{job_not_found, find}
use codehive.Prelude.Exec.{throw, ok}
use codehive.Prelude.{
  inr, inl, none, get_elem?-append_end, [], refl, arith, false, true, not, if◌then◌else◌, ◌≡◌, some,
  String,
}
use codehive.Types.{Job, ExecutionResult}
use codehive.Queue.Platform.{Platform}
use codehive.Queue.World.{get_elem?-modify_at_self, World, modify}
use codehive.Queue.Service.{get_job, names_redis, is_first, update_result, use_redis, get_redis}
use codehive.Queue.Spec.{IsFound, Spec, spec_write}
use codehive.Queue.Spec.Memory.{Implements, look_up_state, write-Implements, ref_of_job}
use codehive.Queue.Spec.Redis.{Stores}

-- `job.result = …; job.status = …; job.updatedAt = …`
abbrev pub with_outcome : String → ExecutionResult → Job → Job
with_outcome now result job = record job {
  result = some result;
  status = result.status;
  updated_at = now;
}

module _ {S V : Type 0} (P : Platform S V) {w : World S} {s : Spec} (now id : String)
    (result : ExecutionResult) (job : Job) (known : s.job id ≡ some job) where
  update_result-Implements :
      Implements w s
      → ((update_result P now id result w).0 ≡ ok tt)
        × Implements (update_result P now id result w).1 (spec_write id (with_outcome now result) s)
  unfolding update_result use_redis modify get_redis find
  update_result-Implements h =
      let (r, e) = ref_of_job h id job known in
      let again : (if not (if is_first w then true else w.redis_attempted)
            then names_redis w.redis_host
            else false)
          ≡ false =
        ground (arith, h.backend) in
      let i = write-Implements h id (with_outcome now result) r e in
      rw (look_up_state P w h.backend id, e, h.backend, again)
        (
          refl,
          record {
            backend = ground (arith, h.backend);
            order = i.order;
            jobs = i.jobs;
            named = i.named;
            in_bounds = i.in_bounds;
            apart = i.apart;
          },
        )

  update_result-Stores :
      Stores P w s
      → ((update_result P now id result w).0 ≡ ok tt)
        × Stores P (update_result P now id result w).1 (spec_write id (with_outcome now result) s)
  unfolding update_result use_redis modify get_redis
  update_result-Stores h =
      let i = stored-Stores P h id (with_outcome now result) job [] known in
      rw (look_up_loaded P h id, known, h.backend, get_elem?-modify_at_self, get_elem?-append_end)
        (
          refl,
          record {
            backend = ground (arith, h.backend);
            order = i.order;
            jobs = i.jobs;
            named = i.named;
          },
        )

  -- Over either backend, `updateResult` on a known job returns; the job gets the result and the result's
  -- status, and no other job and nothing of the order of waiting identifiers changes.
  pub update_result-Serves :
      Serves P w s
      → ((update_result P now id result w).0 ≡ ok tt)
        × Serves P (update_result P now id result w).1 (spec_write id (with_outcome now result) s)
  update_result-Serves (inl h) =
      let (returned, next) = update_result-Implements h in (returned, inl next)
  update_result-Serves (inr h) =
      let (returned, next) = update_result-Stores h in (returned, inr next)

-- Over either backend, `updateResult` on a job that is not known throws an error that names it, and no job
-- changes.
pub update_result-missing :
    {S V : Type 0} (P : Platform S V) {w : World S} {s : Spec} (now id : String)
    (result : ExecutionResult)
    → s.job id ≡ none
    → Serves P w s
    → ((update_result P now id result w).0 ≡ throw (plain (job_not_found id)))
      × Serves P (update_result P now id result w).1 s
unfolding update_result
update_result-missing P {w} {s} now id result missing h =
    let (found, next) = get_job-Serves P id h in
    let null : (get_job P id w).0 ≡ ok none =
      subst (λ o. IsFound (get_job P id w).0 (get_job P id w).1 o) missing found in
    simp null (refl, next)
