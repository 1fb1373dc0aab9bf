-- ===== src/Routes/Execute/Laws.antt =====
-- The replies of `POST /api/execute` and `GET /api/status/:id`, and a submission that is polled.
use mathlib.Core.Path.{subst}
use codehive.Routes.Execute.Begun.{enqueue-chosen, begin_run-Serves, begun}
use codehive.Prelude.Exec.{◌>>=◌}
use codehive.Queue.Service.{enqueue, fresh_job, chosen, get_job}
use codehive.Executor.Languages.{supported, includes}
use codehive.Http.{guarded, accepted, result, reply, error_reply, Reply}
use codehive.Types.{queued, Job}
use codehive.Queue.World.{World}
use codehive.Routes.Execute.{
  begin_run, found_status, request_of, background, result_of, get_status, post_execute,
  CodeSubmission, SubmitSchema,
}
use codehive.Errors.{not_found_error, validation_error, app, send_error, AppError, Details}
use codehive.Queue.Platform.{Platform}
use codehive.Prelude.{
  eq_refl, ap, false, inr, true, inl, refl, Bool-cases, none, str_eq, some, ◌≡◌, if◌then◌else◌,
  Option, String,
}
use codehive.Prelude.Exec.{ok, throw, Result}
use Prim.Native.String.{◌++◌ as str_append}
use codehive.Queue.Spec.{IsFound, Spec, spec_call, submit}
use codehive.Queue.Spec.Serves.{Serves, enqueue-Serves, get_job-Serves}

abbrev pub unsupported : CodeSubmission → AppError
unsupported c = validation_error (str_append "Unsupported language: " c.language) none

abbrev pub refusal : Result Details CodeSubmission → Option AppError
refusal (throw details) = some (validation_error "Invalid request" (some details))
refusal (ok c) = if includes supported c.language then none else some (unsupported c)

refusal-known : (c : CodeSubmission) → includes supported c.language ≡ true → refusal (ok c) ≡ none
refusal-known c h = rw h

refusal-unknown :
    (c : CodeSubmission)
    → includes supported c.language ≡ false
    → refusal (ok c) ≡ some (unsupported c)
refusal-unknown c h = rw h

-- what `GET /api/status/:id` answers, by the job that the queue has
abbrev pub job_answer : String → Option Job → Reply
job_answer id none = error_reply (app (not_found_error "Job" id))
job_answer id (some job) = reply 200 (result (result_of job))

abbrev pub status_answer : String → Option Job → Reply
status_answer id found =
    if str_eq id ""
    then error_reply (app (validation_error "Missing job id" none))
    else job_answer id found

module _ {S V B : Type 0} (P : Platform S V) (Z : SubmitSchema B) {w : World S} {s : Spec}
    (h : Serves P w s) (id now at : String) (body : B) where
  -- A body that the schema refuses, or a language that is not supported, is answered by 400 and a
  -- validation error; nothing is queued, no job is started and the state does not change.
  pub post_execute-refused :
      (e : AppError)
      → refusal (Z.safe_parse body) ≡ some e
      → (post_execute P Z id now at body w ≡ (ok (error_reply (app e), none), w))
        × ((error_reply (app e)).code ≡ 400)
  unfolding post_execute send_error
  post_execute-refused e r = refused_cases (Z.safe_parse body) refl
    where
      refused_cases :
          (p : Result Details CodeSubmission)
          → Z.safe_parse body ≡ p
          → (post_execute P Z id now at body w ≡ (ok (error_reply (app e), none), w))
            × ((error_reply (app e)).code ≡ 400)
      refused_cases (throw d) q =
          let same : validation_error "Invalid request" (some d) ≡ e = cc (ap refusal q, r) in
          rw (← same, q) (refl, refl)
      refused_cases (ok c) q = elim (Bool-cases (includes supported c.language)) [
        | inl known ↦ absurd (cc (ap refusal q, r, refusal-known c known))
        | inr unknown ↦
            let same : unsupported c ≡ e = cc (ap refusal q, r, refusal-unknown c unknown) in
            rw (← same, q, unknown) (refl, refl)
      ]

  -- Over either backend, a body that the schema accepts with a supported language is answered by 202
  -- with the new identifier, which is not empty. The job is behind the others in the queue, and its run has
  -- begun in the background: when the reply is sent, the job is `running` over memory and `queued` over
  -- Redis.
  pub post_execute-accepted :
      (c : CodeSubmission)
      → Z.safe_parse body ≡ ok c
      → includes supported c.language ≡ true
      → str_eq id "" ≡ false
      → ((post_execute P Z id now at body w).0
          ≡ ok (reply 202 (accepted id queued c.language), some (background id c)))
        × Serves P
            (post_execute P Z id now at body w).1
            (begun (chosen w) at id (spec_call (submit id now (request_of c.language)) s).1)
  unfolding post_execute
  post_execute-accepted c p i n =
      let request = request_of c.language in
      let ((r, e, l), next) = enqueue-Serves P id now request n h in
      let (began, behind) =
        begin_run-Serves P at id {w = (enqueue P id now request w).1}
          {s = (spec_call (submit id now request) s).1} (fresh_job id now request)
          (unfold spec_call in rw (eq_refl id)) next in
      let same = enqueue-chosen P id now request n h in
      simp (p, i, e, l, began)
        (
          refl,
          subst
              (λ b.
                Serves P (begin_run at id (enqueue P id now request w).1).1
                  (begun b at id (spec_call (submit id now request) s).1))
              same behind,
        )

module _ {S V : Type 0} (P : Platform S V) {w : World S} {s : Spec} (h : Serves P w s)
    (id : String) where
  -- Over either backend, `GET /api/status/:id` answers 400 for the empty identifier, 404 exactly where no
  -- job has the identifier, and else the job's result, or its status with an empty result; no job
  -- changes.
  pub get_status_lem :
      ((get_status P id w).0 ≡ ok (status_answer id (s.job id))) × Serves P (get_status P id w).1 s
  unfolding get_status
  get_status_lem = elim (Bool-cases (str_eq id "")) [
    | inl blank ↦ rw blank (refl, h)
    | inr given ↦
        rw given (let (found, next) = get_job-Serves P id h in found_cases (s.job id) found next)
  ]
    where
      found_cases :
          (o : Option Job)
          → IsFound (get_job P id w).0 (get_job P id w).1 o
          → Serves P (get_job P id w).1 s
          → ((guarded (do found ← get_job P id; found_status P id found) w).0
              ≡ ok (job_answer id o))
            × Serves P (guarded (do found ← get_job P id; found_status P id found) w).1 s
      found_cases none found next = simp found (refl, next)
      found_cases (some job) (q, found, there) next = simp (found, there) (refl, next)
