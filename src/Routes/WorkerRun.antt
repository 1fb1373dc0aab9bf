-- ===== src/Routes/WorkerRun.antt =====
-- A job's way through the routes of api/src/routes: submitted, handed to a worker, reported on and polled.
use mathlib.Core.Path.{subst}
use codehive.Http.{result, reply}
use codehive.Types.{Job}
use codehive.Executor.Languages.{supported, includes}
use codehive.Prelude.Exec.{ok}
use codehive.Prelude.{
  sym, ◌∙◌, refl, ◌++◌, eq_refl, ap, some, ◌∷◌, [], false, str_eq, true, ◌≡◌, String,
}
use codehive.Queue.Platform.{Platform}
use codehive.Queue.World.{World}
use codehive.Queue.Spec.{Spec, spec_call, submit, spec_write}
use codehive.Queue.Spec.Serves.{Serves}
use codehive.Queue.Service.{fresh_job}
use codehive.Queue.Memory.{assign}
use codehive.Routes.Execute.{SubmitSchema, CodeSubmission, request_of, post_execute, get_status}
use codehive.Routes.Execute.Begun.{id-begun_job, begun, begun_job, begun-pending, job-begun}
use codehive.Queue.Service.{chosen}
use codehive.Routes.Execute.Laws.{post_execute-accepted, get_status_lem}
use codehive.Routes.WorkerApi.{
  WorkerSchemas, Report, next_job, post_result, reported, claim, settle,
}
use codehive.Routes.WorkerApi.Laws.{next_job-claims, post_result-settles, without_first}
use codehive.Routes.Polling.{job-spec_write, status_answer-known}

module _ {S V B : Type 0} (P : Platform S V) (Z : SubmitSchema B) (K : WorkerSchemas B)
    {w : World S} {s : Spec} (h : Serves P w s) (id worker t1 at t2 t3 : String) (body report : B)
    (c : CodeSubmission) (r : Report) (given : Z.safe_parse body ≡ ok c)
    (known : includes supported c.language ≡ true) (named : str_eq id "" ≡ false)
    (ended : K.parse_report report ≡ ok r) (idle : s.pending ≡ []) where
  abbrev submitted : World S
  submitted = (post_execute P Z id t1 at body w).1

  abbrev handed_out : World S
  handed_out = (next_job P t2 worker submitted).1

  abbrev settled : World S
  settled = (post_result P K t3 id report handed_out).1

  abbrev new_job_of : Job
  new_job_of = begun_job (chosen w) at (fresh_job id t1 (request_of c.language))

  abbrev s1 : Spec
  s1 = begun (chosen w) at id (spec_call (submit id t1 (request_of c.language)) s).1

  abbrev s2 : Spec
  s2 = spec_write id (assign (claim worker) t2) (without_first s1)

  abbrev s3 : Spec
  s3 = spec_write id (assign (settle id r) t3) s2

  waits_first : s1.pending ≡ id ∷ []
  unfolding spec_call
  waits_first = begun-pending (chosen w) at id _ ∙ ap (λ l. l ++ id ∷ []) idle

  is_new : s1.job id ≡ some new_job_of
  unfolding spec_call
  is_new =
      job-begun (chosen w) at id _ (fresh_job id t1 (request_of c.language)) (rw (eq_refl id) refl)

  submitted-Serves : Serves P submitted s1
  submitted-Serves = (post_execute-accepted P Z h id t1 at body c given known named).1

  handed_out-Serves : Serves P handed_out s2
  handed_out-Serves =
      let same = id-begun_job (chosen w) at (fresh_job id t1 (request_of c.language)) in
      subst (λ i. Serves P handed_out (spec_write i (assign (claim worker) t2) (without_first s1)))
        same
        (next_job-claims P t2 worker submitted-Serves new_job_of []
          (waits_first ∙ ap (λ i. i ∷ []) (sym same)) (ap s1.job same ∙ is_new)).1

  is_claimed : s2.job id ≡ some (assign (claim worker) t2 new_job_of)
  is_claimed = job-spec_write id (assign (claim worker) t2) (without_first s1) new_job_of is_new

  settled-Serves : Serves P settled s3
  settled-Serves = (post_result-settles P K t3 id report handed_out-Serves r _ ended is_claimed).1

  -- Over either backend and with nothing waiting: when a submission that is accepted, under an identifier
  -- that is not empty, was handed to the worker that asked next, the worker's report was accepted, and
  -- nothing else came between, no further step of the run that the submission has begun either, a poll
  -- is answered with the reported result, status and identifier.
  pub worker_report-polled : (get_status P id settled).0 ≡ ok (reply 200 (result (reported id r)))
  unfolding assign
  worker_report-polled =
      (get_status_lem P settled-Serves id).0
      ∙ ap ok (
          status_answer-known id _ _ named
            (job-spec_write id (assign (settle id r) t3) s2 _ is_claimed))
