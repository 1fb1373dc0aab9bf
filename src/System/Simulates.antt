-- ===== src/System/Simulates.antt =====
-- Each step of the server process, over either backend, is a change of the abstract queue.
use codehive.Routes.Executions.Counts.{get_redis-Serves}
use codehive.Routes.Execute.{request_of}
use codehive.Executor.Redis.{unrecorded}
use mathlib.Core.Path.{subst}
use codehive.Types.{Job}
use codehive.Prelude.Exec.{ok}
use codehive.Queue.Service.{queue_key, job_key, update_job, get_job}
use codehive.Queue.Spec.Serves.{dequeue-Serves, enqueue-Serves, call-Serves, get_job-Serves, Serves}
use codehive.Queue.Spec.{change, spec_call, IsFound, call, spec_write, Spec}
use codehive.Errors.{Error}
use codehive.Executor.Process.{ProcResult}
use codehive.Executor.Memory.{recorded, failed_job, with_result, running_job}
use codehive.Queue.World.{World}
use codehive.Routes.WorkerApi.{reported, settle, Report, claim, has_ended}
use codehive.Prelude.{
  ap, sym, ◌∙◌, false≢true, some, none, Option, Bool-cases, inr, true, refl, ◌≡◌, inl, String,
}
use codehive.Queue.Platform.{Platform}
use codehive.Executor.Run.{
  failure_result, record_result, finished, status_of, record_failure, Submitted, mark_running, Host,
}
use codehive.Prelude.Int.{is_zero, ℤ}
use codehive.Queue.Memory.{JobUpdates, assign}
use codehive.System.{Step}
use mathlib.Core.Option
use codehive.Queue.Spec.Redis.Relation.{Stores, job_key_ne}
use codehive.Queue.Spec.Redis.Effects.{merge, get-store}
use codehive.System.{IsUndivided}
use codehive.System.Changes.{
  put, overwrite, IsWhole, Change, add, drop_first, write, stay, IsCareful,
}

-- the writes that the code makes
pub claim-IsCareful : (now id worker : String) → IsCareful id (assign (claim worker) now)
unfolding assign
claim-IsCareful now id worker = record {
  same_id = λ j. refl;
  result_set = λ j. inl refl;
  ends_with_result = λ j e q. cc;
}

pub settle-IsCareful :
    (now id : String) (r : Report)
    → has_ended r.status ≡ true
    → IsCareful id (assign (settle id r) now)
unfolding assign
settle-IsCareful now id r e = record {
  same_id = λ j. refl;
  result_set = λ j. inr (reported id r, refl, refl, e);
  ends_with_result = λ j e q. cc;
}

running-IsCareful : (H : Host) (id : String) → IsCareful id (running_job H)
unfolding assign
running-IsCareful H id = record {
  same_id = λ j. refl;
  result_set = λ j. inl refl;
  ends_with_result = λ j e q. cc;
}

has_ended-status_of : (code : ℤ) → has_ended (status_of code) ≡ true
has_ended-status_of code = elim (Bool-cases (is_zero code)) [
  | inl z ↦ rw z refl
  | inr n ↦ rw n refl
]

result-IsCareful :
    (H : Host) (a : Submitted) (r : ProcResult) → IsCareful a.id (with_result (finished H a r))
result-IsCareful H a r = record {
  same_id = λ j. refl;
  result_set = λ j. inr (finished H a r, refl, refl, has_ended-status_of r.exit_code);
  ends_with_result = λ j e q. cc;
}

failed-IsCareful : (H : Host) (a : Submitted) (e : Error) → IsCareful a.id (failed_job H a e)
unfolding assign
failed-IsCareful H a e = record {
  same_id = λ j. refl;
  result_set = λ j. inr (failure_result H a e, refl, refl, refl);
  ends_with_result = λ j e q. cc;
}

module _ {S V : Type 0} (P : Platform S V) {w : World S} {s : Spec} (h : Serves P w s) where
  -- `updateJob`, whether it finds the job or not
  updated :
      (now id : String) (u : JobUpdates)
      → Serves P (update_job P now id u w).1 (spec_write id (assign u now) s)
  updated now id u = unfold call spec_call in (call-Serves P (change now id u) tt h).1

  pub not_known : (id : String) → (get_job P id w).0 ≡ ok none → s.job id ≡ none
  not_known id e = unfound (s.job id) (get_job-Serves P id h).0
    where
      unfound : (o : Option Job) → IsFound (get_job P id w).0 (get_job P id w).1 o → o ≡ none
      unfound none f = refl
      unfound (some j) f = cc (e, f.1)

  -- the write of a result, behind `getJob`
  written_back :
      (H : Host) (a : Submitted) (r : ProcResult) (o : Option Job)
      → s.job a.id ≡ o
      → (t : Spec) × (c : Change s t) × Serves P (record_result P H a r w).1 t × IsWhole c
  unfolding record_result
  written_back H a r none e =
      let (found, next) = get_job-Serves P a.id h in
      let null : (get_job P a.id w).0 ≡ ok none =
        subst (λ o. IsFound (get_job P a.id w).0 (get_job P a.id w).1 o) e found in
      (s, stay, simp null next, tt)
  written_back H a r (some j) e = elim h [
    | inl m ↦ (
      _,
      write a.id (with_result (finished H a r)) (result-IsCareful H a r),
      (unfold record_result in inl (recorded P H a m r j e).1),
      tt,
    )
    | inr t ↦ (_, stay, (unfold record_result in inr (unrecorded P H a t r j e).1), tt)
  ]

module _ {S V : Type 0} (P : Platform S V) {w : World S} {s : Spec} (h : Stores P w s) where
  -- the text of a job stands at its key
  stored_known :
      (id : String) (text : V)
      → P.get (job_key id) w.server ≡ some text
      → (j : Job) × (s.job id ≡ some j)
  stored_known id text e = found (s.job id) refl
    where
      found : (o : Option Job) → s.job id ≡ o → (j : Job) × (s.job id ≡ some j)
      found none q =
          let absent : P.get (job_key id) w.server ≡ none =
            h.jobs id ∙ ap (λ (o : Option Job). Option.map P.stringify o) q in
          cc (e, absent)
      found (some j) q = (j, q)

  put-Stores :
      (id : String) (job : Job)
      → Stores P
          (record w { server = P.set (job_key id) (P.stringify job) w.server })
          (overwrite id job s)
  put-Stores id job = record {
    backend = h.backend;
    order = P.items-set _ queue_key _ w.server (λ e. job_key_ne id (sym e)) ∙ h.order;
    jobs = λ k. get-store P id k job w.server ∙ merge P id k job (s.job k) (h.jobs k);
    named = h.named;
  }

-- A step is a change of what the server serves, and a whole one where it is no divided update.
pub Step-Change :
    {S V : Type 0} {P : Platform S V} {w v : World S} {s : Spec}
    → (st : Step P w v) → Serves P w s
    → (t : Spec) × (c : Change s t) × Serves P v t × (IsUndivided P st → IsWhole c)
unfolding mark_running record_failure
Step-Change {P = P} {s = s} (Step.submitted id now language n new) h = (
  _,
  add id now (request_of language) (not_known P h id new),
  (enqueue-Serves P id now (request_of language) n h).1,
  λ e. tt,
)
Step-Change {P = P} Step.taken h = (_, drop_first, (dequeue-Serves P h).1, λ e. tt)
Step-Change {P = P} (Step.claimed now id worker) h =
    (_, write id _ (claim-IsCareful now id worker), updated P h now id (claim worker), λ e. tt)
Step-Change {P = P} (Step.looked_up id) h = (_, stay, (get_job-Serves P id h).1, λ e. tt)
Step-Change {P = P} Step.connected h = (_, stay, get_redis-Serves P h, λ e. tt)
Step-Change {P = P} (Step.settled now id r e) h =
    (_, write id _ (settle-IsCareful now id r e), updated P h now id (settle id r), λ x. tt)
Step-Change {P = P} (Step.marked H a) h =
    (_, write a.id _ (running-IsCareful H a.id), updated P h H.marked_at a.id _, λ x. tt)
Step-Change {P = P} {s = s} (Step.recorded H a r) h =
    let (t, c, next, whole) = written_back P h H a r (s.job a.id) refl in (t, c, next, λ e. whole)
Step-Change {P = P} (Step.failed H a e) h =
    (_, write a.id _ (failed-IsCareful H a e), updated P h H.failed_at a.id _, λ x. tt)
Step-Change {P = P} {s = s} (Step.rewritten id j text r there good) (inl m) =
    absurd (false≢true (sym m.backend ∙ r))
Step-Change {P = P} {s = s} (Step.rewritten id j text r there good) (inr h) = (
  overwrite id j s,
  put id j (stored_known P h id text there) good,
  inr (put-Stores P h id j),
  λ e. absurd e,
)
