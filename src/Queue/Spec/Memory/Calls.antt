-- ===== src/Queue/Spec/Memory/Calls.antt =====
-- The calls of api/src/services/queue.ts on the memory backend do what the specification says.
use codehive.Types.{Job, ExecutionRequest}
use codehive.Queue.Platform.{Platform}
use codehive.Prelude.{
  get_elem?-append_end, refl, ◌∙◌, ap, ◌≡◌, ◌<◌, Option, none, some, String, length,
}
use codehive.Prelude.Dict
use codehive.Queue.World.{World, Ref}
use codehive.Queue.Memory.{job_not_found, assign, deref, JobUpdates, mem_dequeue, find}
use codehive.Queue.Service.{update_job, fresh_job, get_redis}
use codehive.Queue.Spec.{
  IsFound, changed, seen_unit-done, spec_write, plain, failed, seen, saw, HasName, Call, look_up,
  call, change, take_next, submit, spec_call, ok, Spec,
}
use codehive.Queue.Spec.Memory.Relation.{Implements}
use codehive.Queue.Spec.Memory.Effects.{
  submit_state, take_next_state, look_up_state, change_missing, change_found,
}
use codehive.Queue.Spec.Memory.Preserve.{
  in_bounds_some, submit-Implements, take_next-Implements, look_up-Implements, first_job-eq,
  deref_some, write-Implements, unchanged-Implements,
}

module _ {S V : Type 0} (P : Platform S V) {w : World S} {s : Spec} (h : Implements w s) where
  submit-Answer :
      (id now : String) (request : ExecutionRequest)
      → (call P (submit id now request) w).0 ≡ (spec_call (submit id now request) s).0
  unfolding call spec_call
  submit-Answer id now request =
      rw (submit_state P w h.backend id now request)
        (ap saw (get_elem?-append_end w.heap (fresh_job id now request)))

  seen-deref : (o : Option Ref) (v : World S) → seen (ok o) v ≡ saw (deref v.heap o)
  seen-deref none v = refl
  seen-deref (some r) v = refl

  take_next-Answer : (call P take_next w).0 ≡ (spec_call take_next s).0
  unfolding call spec_call get_redis mem_dequeue
  take_next-Answer =
      rw (take_next_state P w h.backend, seen-deref)
        (ap saw (rw h.order (first_job-eq h s.pending h.named)))

  look_up-Answer : (id : String) → (call P (look_up id) w).0 ≡ (spec_call (look_up id) s).0
  unfolding call spec_call get_redis find
  look_up-Answer id = rw (look_up_state P w h.backend id, seen-deref) (ap saw (h.jobs id))

  change_cases :
      (now id : String) (u : JobUpdates) (o : Option Ref)
      → Dict.get id w.mem.jobs ≡ o
      → ((call P (change now id u) w).0 ≡ (spec_call (change now id u) s).0)
        × Implements (call P (change now id u) w).1 (spec_call (change now id u) s).1
  unfolding call
  change_cases now id u none e =
      rw (change_missing P w h.backend now id u e) (spec_missing, unchanged-Implements h now id u e)
    where
      spec_missing : failed (plain (job_not_found id)) ≡ (spec_call (change now id u) s).0
      spec_missing = unfold spec_call find in rw (← h.jobs id, e)
  change_cases now id u (some r) e =
      let (job, found) = deref_some h id r e in
      rw (change_found P w h.backend now id u r e)
        (unfold spec_call in (rw found, write-Implements h id (assign u now) r e))

  -- Where the memory queue holds what the abstract state says, one call answers as the specification
  -- does and leaves a queue that holds the state after; a submitted job has an identifier that is not
  -- empty.
  pub call-Implements :
      (c : Call)
      → HasName c
      → ((call P c w).0 ≡ (spec_call c s).0) × Implements (call P c w).1 (spec_call c s).1
  call-Implements (submit id now request) n = (
    submit-Answer id now request,
    (unfold call in
        rw (submit_state P w h.backend id now request) (submit-Implements h id now request n)),
  )
  call-Implements take_next n = (
    take_next-Answer,
    (unfold call in rw (take_next_state P w h.backend) (take_next-Implements h)),
  )
  call-Implements (look_up id) n = (
    look_up-Answer id,
    (unfold call spec_call in rw (look_up_state P w h.backend id) (look_up-Implements h)),
  )
  call-Implements (change now id u) n = change_cases now id u _ refl

  -- `updateJob` of a job that is there
  pub update_job-Implements :
      (now id : String) (u : JobUpdates) (job : Job)
      → s.job id ≡ some job
      → ((update_job P now id u w).0 ≡ ok tt)
        × Implements (update_job P now id u w).1 (spec_write id (assign u now) s)
  update_job-Implements now id u job e =
      let (same, next) = call-Implements (change now id u) tt in
      unfold call spec_call in (seen_unit-done _ (same ∙ ap (λ o. changed o id) e), next)

pub IsFound-deref :
    {S : Type 0} (v : World S) (o : Option Ref) (p : Option Job)
    → ((r : Ref) → o ≡ some r → r < length v.heap)
    → deref v.heap o ≡ p
    → IsFound (ok o) v p
IsFound-deref v none none h e = refl
IsFound-deref v none (some job) h e = cc
IsFound-deref v (some r) none h e =
    let (job, there) = in_bounds_some v.heap r (h r refl) in absurd (cc)
IsFound-deref v (some r) (some job) h e = (r, refl, e)
