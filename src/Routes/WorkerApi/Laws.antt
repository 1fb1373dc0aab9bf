-- ===== src/Routes/WorkerApi/Laws.antt =====
-- The replies of the worker routes, and what they leave in the queue.
use codehive.Prelude.Dict.{get}
use codehive.Queue.Spec.Memory.{
  changed_state_memory, call-Implements, dequeued_memory, ref_of_job, Implements,
}
use codehive.Queue.Spec.Redis.{changed_state_redis, call-Stores, dequeued_redis, Stores}
use mathlib.Core.Path.{subst}
use codehive.Queue.Service.{chosen, update_job, get_redis, dequeue, get_job}
use codehive.Http.{ok_true, empty, error_reply, reply}
use codehive.Prelude.Exec.{ok, throw}
use codehive.Errors.{validation_error, app, Details}
use codehive.Types.{Job}
use codehive.Queue.World.{
  get_elem?-modify_at_self, get_elem?-modify_at_ne, modify_at, load, Ref, World,
}
use codehive.Routes.WorkerApi.{
  settle, claim, job_reply, unknown_job, Report, post_result, next_job, WorkerSchemas,
}
use codehive.Prelude.{
  sym, get_elem?-append_end, get_elem?-append_left, ◌∙◌, length-append, arith, [], ◌++◌, length,
  inr, ap, inl, get_elem?, if◌then◌else◌, ◌∷◌, List, refl, some, none, ◌≡◌, String,
}
use codehive.Queue.Memory.{deref, find, JobUpdates, assign, tail_order}
use codehive.Queue.Platform.{Platform}
use codehive.Queue.Spec.{take_next, spec_call, call, IsFound, spec_write, first_pending, Spec}
use codehive.Queue.Spec.Serves.{Serves, dequeue-Serves, get_job-Serves, update_job-Serves}

-- the waiting identifiers without the first
abbrev pub without_first : Spec → Spec
without_first s = record s { pending = tail_order s.pending }

module _ {S V : Type 0} (P : Platform S V) (now worker : String) {w : World S} {s : Spec}
    (h : Serves P w s) where
  -- Over either backend, a worker that asks while nothing waits, or while the first waiting identifier
  -- has no job, is answered by 204; in the second case that identifier is dropped.
  pub next_job-idle :
      first_pending s.pending s.job ≡ none
      → ((next_job P now worker w).0 ≡ ok (reply 204 empty))
        × Serves P (next_job P now worker w).1 (without_first s)
  unfolding next_job
  next_job-idle e =
      let (found, next) = dequeue-Serves P h in
      let null : (dequeue P w).0 ≡ ok none =
        subst (λ o. IsFound (dequeue P w).0 (dequeue P w).1 o) e found in
      simp null (refl, next)

module _ {S V : Type 0} (P : Platform S V) (now : String) (u : JobUpdates) (job : Job)
    (ids : List String) {w : World S} {s : Spec} (e : s.pending ≡ job.id ∷ ids)
    (known : s.job job.id ≡ some job) (q : Ref) (taken : (dequeue P w).0 ≡ ok (some q)) where
  -- over memory the object that was handed out is the one that the update changes
  handed_memory :
      Implements w s
      → load (update_job P now job.id u (dequeue P w).1).1 q ≡ some (assign u now job)
  unfolding get_redis find
  handed_memory h =
      let (r, at_id) = ref_of_job h job.id job known in
      let out_ = dequeued_memory P h job.id ids r e at_id in
      let same : q ≡ r = cc (taken, ap (λ p. p.0) out_) in
      let next : Implements (dequeue P w).1 (without_first s) =
        unfold call spec_call in (call-Implements P h take_next tt).1 in
      let changed_heap =
        changed_state_memory P next now job.id u r
          (ap (λ p. get job.id p.1.mem.jobs) out_ ∙ at_id) in
      let there : get_elem? w.heap r ≡ some job =
        ap (deref w.heap) (sym at_id) ∙ h.jobs job.id ∙ known in
      rw (changed_heap, same, ap (λ p. p.1.heap) out_, get_elem?-modify_at_self, there)

  -- over Redis it is a copy that stays as it was
  handed_redis : Stores P w s → load (update_job P now job.id u (dequeue P w).1).1 q ≡ some job
  unfolding get_redis
  handed_redis h =
      let out_ = dequeued_redis P h job.id ids job e known in
      let same : q ≡ length w.heap = cc (taken, ap (λ p. p.0) out_) in
      let next : Stores P (dequeue P w).1 (without_first s) =
        unfold call spec_call in (call-Stores P h take_next tt).1 in
      let changed_heap = changed_state_redis P next now job.id u job known in
      rw (changed_heap, same, ap (λ p. p.1.heap) out_) (left_alone w.heap)
    where
      left_alone :
          (heap : List Job)
          → get_elem?
              (modify_at
                (length (heap ++ job ∷ []))
                (assign u now)
                ((heap ++ job ∷ []) ++ job ∷ []))
              (length heap)
            ≡ some job
      left_alone heap =
          get_elem?-modify_at_ne (length (heap ++ job ∷ [])) (length heap) _ _
            (omega (arith, length-append heap (job ∷ [])))
          ∙ get_elem?-append_left (heap ++ job ∷ []) (job ∷ []) (length heap)
              (omega (arith, length-append heap (job ∷ [])))
          ∙ get_elem?-append_end heap job

  handed :
      Serves P w s
      → load (update_job P now job.id u (dequeue P w).1).1 q
        ≡ some (if chosen w then job else assign u now job)
  handed (inl h) = rw h.backend (handed_memory h)
  handed (inr h) = rw h.backend (handed_redis h)

module _ {S V : Type 0} (P : Platform S V) (now worker : String) {w : World S} {s : Spec}
    (h : Serves P w s) where
  -- Over either backend, a worker that asks while a job waits first in the order, under the job's own
  -- identifier, is answered by 200 with that job; the job is taken out of the order and marked `running`
  -- under the worker's name. The reply shows that mark where the queue is in memory, and over Redis the
  -- job as it was.
  pub next_job-claims :
      (job : Job) (ids : List String)
      → s.pending ≡ job.id ∷ ids
      → s.job job.id ≡ some job
      → ((next_job P now worker w).0
          ≡ ok (job_reply (some (if chosen w then job else assign (claim worker) now job))))
        × Serves P
            (next_job P now worker w).1
            (spec_write job.id (assign (claim worker) now) (without_first s))
  unfolding next_job
  next_job-claims job ids e known =
      let (found, next) = dequeue-Serves P h in
      let first : first_pending s.pending s.job ≡ some job = rw (e, known) in
      let (q, r, l) : (q : Ref) × ((dequeue P w).0 ≡ ok (some q))
          × (load (dequeue P w).1 q ≡ some job) =
        subst (λ o. IsFound (dequeue P w).0 (dequeue P w).1 o) first found in
      let (returned, next') = update_job-Serves P now job.id (claim worker) job known next in
      simp (r, l, returned)
        (ap ok (ap job_reply (handed P now (claim worker) job ids e known q r h)), next')

module _ {S V B : Type 0} (P : Platform S V) (Z : WorkerSchemas B) (now id : String) (body : B)
    {w : World S} {s : Spec} (h : Serves P w s) where
  -- A report that the schema refuses is answered by 400 and changes nothing.
  pub post_result-refused :
      (d : Details)
      → Z.parse_report body ≡ throw d
      → post_result P Z now id body w
        ≡ (ok (error_reply (app (validation_error "Invalid result" (some d)))), w)
  unfolding post_result
  post_result-refused d e = simp e

  -- Over either backend, a report that the schema accepts, on a job that is not known, is answered by
  -- 404, and no job changes.
  pub post_result-unknown :
      (r : Report)
      → Z.parse_report body ≡ ok r
      → s.job id ≡ none
      → ((post_result P Z now id body w).0 ≡ ok (unknown_job id))
        × Serves P (post_result P Z now id body w).1 s
  unfolding post_result
  post_result-unknown r e missing =
      let (found, next) = get_job-Serves P id h in
      let null : (get_job P id w).0 ≡ ok none =
        subst (λ o. IsFound (get_job P id w).0 (get_job P id w).1 o) missing found in
      simp (e, null) (refl, next)

  pub post_result-settles :
      (r : Report) (job : Job)
      → Z.parse_report body ≡ ok r
      → s.job id ≡ some job
      → ((post_result P Z now id body w).0 ≡ ok (reply 200 ok_true))
        × Serves P (post_result P Z now id body w).1 (spec_write id (assign (settle id r) now) s)
  unfolding post_result
  post_result-settles r job e known =
      let (found, next) = get_job-Serves P id h in
      let (q, f, l) : (q : Ref) × ((get_job P id w).0 ≡ ok (some q))
          × (load (get_job P id w).1 q ≡ some job) =
        subst (λ o. IsFound (get_job P id w).0 (get_job P id w).1 o) known found in
      let (returned, next') = update_job-Serves P now id (settle id r) job known next in
      simp (e, f, returned) (refl, next')
