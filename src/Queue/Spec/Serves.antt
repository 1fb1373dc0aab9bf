-- ===== src/Queue/Spec/Serves.antt =====
-- What the routes use of the queue, whichever backend keeps it: each exported function against the
-- specification, with the object behind what it returns.
use codehive.Prelude.Exec.{ok}
use codehive.Queue.Memory.{assign, tail_order, JobUpdates}
use codehive.Queue.Service.{fresh_job, enqueue, update_job, get_job, dequeue}
use codehive.Types.{Job, ExecutionRequest}
use codehive.Prelude.{some, false, inr, ◌≡◌, inl, str_eq, String, ◌⊎◌}
use codehive.Queue.Spec.{
  seen_ref-some, submit, spec_write, look_up, take_next, spec_call, first_pending, call, HasName,
  IsFound, Call, Spec,
}
use codehive.Queue.World.{load, Ref, World}
use codehive.Queue.Platform.{Platform}
use codehive.Queue.Spec.Memory.{Implements, get_job-IsFound_memory, dequeue-IsFound_memory}
use codehive.Queue.Spec.Redis.{Stores, get_job-IsFound_redis, dequeue-IsFound_redis}
use codehive.Queue.Spec.Memory
use codehive.Queue.Spec.Redis

abbrev pub Serves : {S V : Type 0} → Platform S V → World S → Spec → Type 0
Serves P w s = Implements w s ⊎ Stores P w s

module _ {S V : Type 0} (P : Platform S V) {w : World S} {s : Spec} where
  -- Over either backend, one call of `enqueue`, `dequeue`, `getJob` or `updateJob` answers as the
  -- specification does and leaves a queue that holds the state after; a submitted job has an identifier
  -- that is not empty.
  pub call-Serves :
      (c : Call)
      → HasName c
      → Serves P w s
      → ((call P c w).0 ≡ (spec_call c s).0) × Serves P (call P c w).1 (spec_call c s).1
  call-Serves c n (inl h) = let (same, next) = Memory.call-Implements P h c n in (same, inl next)
  call-Serves c n (inr h) = let (same, next) = Redis.call-Stores P h c n in (same, inr next)

  pub enqueue-Serves :
      (id now : String) (request : ExecutionRequest)
      → str_eq id "" ≡ false
      → Serves P w s
      → ((r : Ref) × ((enqueue P id now request w).0 ≡ ok r)
          × (load (enqueue P id now request w).1 r ≡ some (fresh_job id now request)))
        × Serves P (enqueue P id now request w).1 (spec_call (submit id now request) s).1
  enqueue-Serves id now request n h =
      let (same, next) = call-Serves (submit id now request) n h in
      (unfold call spec_call in seen_ref-some _ _ _ same, (unfold call in next))

  pub dequeue-Serves :
      Serves P w s
      → IsFound (dequeue P w).0 (dequeue P w).1 (first_pending s.pending s.job)
        × Serves P (dequeue P w).1 (record s { pending = tail_order s.pending })
  dequeue-Serves (inl h) =
      (dequeue-IsFound_memory P h, (unfold call spec_call in (call-Serves take_next tt (inl h)).1))
  dequeue-Serves (inr h) =
      (dequeue-IsFound_redis P h, (unfold call spec_call in (call-Serves take_next tt (inr h)).1))

  pub get_job-Serves :
      (id : String)
      → Serves P w s
      → IsFound (get_job P id w).0 (get_job P id w).1 (s.job id) × Serves P (get_job P id w).1 s
  get_job-Serves id (inl h) = (
    get_job-IsFound_memory P h id,
    (unfold call spec_call in (call-Serves (look_up id) tt (inl h)).1),
  )
  get_job-Serves id (inr h) = (
    get_job-IsFound_redis P h id,
    (unfold call spec_call in (call-Serves (look_up id) tt (inr h)).1),
  )

  pub update_job-Serves :
      (now id : String) (u : JobUpdates) (job : Job)
      → s.job id ≡ some job
      → Serves P w s
      → ((update_job P now id u w).0 ≡ ok tt)
        × Serves P (update_job P now id u w).1 (spec_write id (assign u now) s)
  update_job-Serves now id u job e (inl h) =
      let (returned, next) = Memory.update_job-Implements P h now id u job e in (returned, inl next)
  update_job-Serves now id u job e (inr h) =
      let (returned, next) = Redis.update_job-Stores P h now id u job e in (returned, inr next)
