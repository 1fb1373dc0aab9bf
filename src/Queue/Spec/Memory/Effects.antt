-- ===== src/Queue/Spec/Memory/Effects.antt =====
-- The world that each call of api/src/services/queue.ts leaves on the memory backend.
use codehive.Types.{ExecutionRequest}
use codehive.Queue.Platform.{Platform}
use codehive.Prelude.{◌≡◌, none, some, String, [], ◌∷◌, ◌++◌, false, length}
use codehive.Prelude.Dict
use codehive.Queue.World.{modify_at, World, Ref}
use codehive.Queue.Memory.{
  job_not_found, assign, mem_update_job, JobUpdates, mem_dequeue, mem_enqueue,
}
use codehive.Queue.Service.{update_job, get_job, dequeue, fresh_job, get_redis, enqueue, chosen}
use codehive.Queue.Spec.{plain, throw, ok}

module _ {S V : Type 0} (P : Platform S V) (w : World S) (b : chosen w ≡ false) where
  pub submit_state :
      (id now : String) (request : ExecutionRequest)
      → enqueue P id now request w ≡ (
        ok (length w.heap),
        record (get_redis w) {
          heap = w.heap ++ fresh_job id now request ∷ [];
          mem = mem_enqueue (length w.heap) id w.mem;
        },
      )
  unfolding enqueue get_redis
  submit_state id now request = rw b

  pub take_next_state :
      dequeue P w ≡ (ok (mem_dequeue w.mem).0, record (get_redis w) { mem = (mem_dequeue w.mem).1 })
  unfolding dequeue get_redis
  take_next_state = rw b

  pub look_up_state : (id : String) → get_job P id w ≡ (ok (Dict.get id w.mem.jobs), get_redis w)
  unfolding get_job get_redis
  look_up_state id = rw b

  pub change_state :
      (now id : String) (u : JobUpdates)
      → update_job P now id u w ≡ mem_update_job id u now (get_redis w)
  unfolding update_job get_redis
  change_state now id u = rw b

module _ {S V : Type 0} (P : Platform S V) (w : World S) (b : chosen w ≡ false) where
  pub change_missing :
      (now id : String) (u : JobUpdates)
      → Dict.get id w.mem.jobs ≡ none
      → update_job P now id u w ≡ (throw (plain (job_not_found id)), get_redis w)
  unfolding mem_update_job get_redis
  change_missing now id u e = rw (change_state P w b now id u, e)

  pub change_found :
      (now id : String) (u : JobUpdates) (r : Ref)
      → Dict.get id w.mem.jobs ≡ some r
      → update_job P now id u w
        ≡ (ok tt, record (get_redis w) { heap = modify_at r (assign u now) w.heap })
  unfolding mem_update_job get_redis
  change_found now id u r e = rw (change_state P w b now id u, e)
