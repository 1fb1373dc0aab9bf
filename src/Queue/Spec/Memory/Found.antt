-- ===== src/Queue/Spec/Memory/Found.antt =====
-- What `dequeue` and `getJob` of api/src/services/queue.ts find over memory, and the worlds that they
-- leave.
use mathlib.Core.Path.{subst}
use codehive.Queue.Platform.{Platform}
use codehive.Prelude.{◌∙◌, ap, ◌≡◌, ◌<◌, some, String, List, [], ◌∷◌, length}
use codehive.Prelude.Dict
use codehive.Queue.World.{modify_at, World, Ref}
use codehive.Queue.Memory.{assign, first_job, tail_order, JobUpdates, mem_dequeue, find}
use codehive.Queue.Service.{update_job, get_job, dequeue, get_redis}
use codehive.Queue.Spec.{IsFound, first_pending, ok, Spec}
use codehive.Queue.Spec.Memory.Relation.{AllNamed, Implements}
use codehive.Queue.Spec.Memory.Effects.{take_next_state, look_up_state, change_found}
use codehive.Queue.Spec.Memory.Preserve.{first_job-eq}
use codehive.Queue.Spec.Memory.Calls.{IsFound-deref}

module _ {S V : Type 0} (P : Platform S V) {w : World S} {s : Spec} (h : Implements w s) where
  pub get_job-IsFound_memory :
      (id : String) → IsFound (get_job P id w).0 (get_job P id w).1 (s.job id)
  get_job-IsFound_memory id = rw (look_up_state P w h.backend id) (
      IsFound-deref (get_redis w) (Dict.get id w.mem.jobs) (s.job id)
        (unfold get_redis in h.in_bounds id) (unfold get_redis find in h.jobs id))

  first_in_bounds :
      (ids : List String)
      → AllNamed ids
      → (r : Ref) → first_job ids w.mem.jobs ≡ some r
      → r < length w.heap
  first_in_bounds [] n r e = cc
  first_in_bounds (id ∷ ids) (m, n) r e = h.in_bounds id r (rw m at e)

  pub dequeue-IsFound_memory :
      IsFound (dequeue P w).0 (dequeue P w).1 (first_pending s.pending s.job)
  unfolding mem_dequeue get_redis
  dequeue-IsFound_memory =
      rw (take_next_state P w h.backend, h.order)
        (IsFound-deref (record (get_redis w) { mem = (mem_dequeue w.mem).1 })
          (first_job s.pending w.mem.jobs) (first_pending s.pending s.job)
          (unfold get_redis in first_in_bounds s.pending h.named)
          (unfold get_redis in first_job-eq h s.pending h.named))

  -- `dequeue` of a job that is there hands out the object that the map holds
  pub dequeued_memory :
      (id : String) (ids : List String) (r : Ref)
      → s.pending ≡ id ∷ ids
      → Dict.get id w.mem.jobs ≡ some r
      → dequeue P w ≡ (ok (some r), record (get_redis w) { mem = record w.mem { order = ids } })
  unfolding mem_dequeue get_redis
  dequeued_memory id ids r e f =
      let named : AllNamed (id ∷ ids) = subst AllNamed e h.named in
      let order : w.mem.order ≡ id ∷ ids = h.order ∙ e in
      rw (
        take_next_state P w h.backend,
        ap (λ l. first_job l w.mem.jobs) order,
        named.0,
        f,
        ap tail_order order,
      )

  -- the state behind `updateJob` of a job that is there
  pub changed_state_memory :
      (now id : String) (u : JobUpdates) (r : Ref)
      → Dict.get id w.mem.jobs ≡ some r
      → (update_job P now id u w).1.heap ≡ modify_at r (assign u now) w.heap
  unfolding get_redis
  changed_state_memory now id u r e = rw (change_found P w h.backend now id u r e)
