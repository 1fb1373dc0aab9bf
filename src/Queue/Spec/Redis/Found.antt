-- ===== src/Queue/Spec/Redis/Found.antt =====
-- What `dequeue` and `getJob` of api/src/services/queue.ts find over Redis, and the worlds that they
-- leave.
use codehive.Queue.Memory.{assign, JobUpdates}
use codehive.Types.{Job}
use codehive.Queue.Spec.{IsFound, first_pending, Spec}
use codehive.Queue.World.{modify_at, get_elem?-modify_at_self, modify, World}
use codehive.Queue.Service.{update_job, get_job, dequeue, queue_key, get_redis}
use codehive.Prelude.{
  List, refl, get_elem?-append_end, ◌∙◌, some, none, Option, [], ◌∷◌, ◌++◌, length, ◌≡◌, String,
}
use codehive.Queue.Platform.{Platform}
use codehive.Queue.Spec.Redis.Relation.{Stores}
use codehive.Queue.Spec.Redis.Calls.{loaded, look_up_loaded, take_cases, update_state, loaded_again}

module _ {S V : Type 0} (P : Platform S V) {w : World S} {s : Spec} (h : Stores P w s) where
  IsFound-loaded : (o : Option Job) (v : World S) → IsFound (loaded o v).0 (loaded o v).1 o
  IsFound-loaded none v = refl
  IsFound-loaded (some job) v = (length v.heap, refl, get_elem?-append_end v.heap job)

  pub get_job-IsFound_redis :
      (id : String) → IsFound (get_job P id w).0 (get_job P id w).1 (s.job id)
  get_job-IsFound_redis id = rw (look_up_loaded P h id) (IsFound-loaded (s.job id) (get_redis w))

  pub dequeue-IsFound_redis :
      IsFound (dequeue P w).0 (dequeue P w).1 (first_pending s.pending s.job)
  dequeue-IsFound_redis =
      rw (take_cases P h s.pending refl).0 (IsFound-loaded (first_pending s.pending s.job) _)

  -- the state behind `updateJob` of a job that is there: a new object was changed and stored
  pub changed_state_redis :
      (now id : String) (u : JobUpdates) (job : Job)
      → s.job id ≡ some job
      → (update_job P now id u w).1.heap
        ≡ modify_at (length w.heap) (assign u now) (w.heap ++ job ∷ [])
  unfolding modify get_redis
  changed_state_redis now id u job e = rw (
    update_state P h now id u,
    loaded_again P h id,
    e,
    get_elem?-modify_at_self,
    get_elem?-append_end,
  )

  -- `dequeue` of a job that is there
  pub dequeued_redis :
      (id : String) (ids : List String) (job : Job)
      → s.pending ≡ id ∷ ids
      → s.job id ≡ some job
      → dequeue P w
        ≡ loaded (some job) (record (get_redis w) { server = (P.rpop queue_key w.server).1 })
  dequeued_redis id ids job e f = (take_cases P h (id ∷ ids) e).0 ∙ rw f
