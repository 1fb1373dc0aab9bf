-- ===== src/System/Served.antt =====
-- A server process that answers requests, one after the other, against the steps of System.
mod Tests
use codehive.Prelude.Int.{pos}
use codehive.Types.{Job}
use codehive.Executor.Languages.{supported, includes}
use mathlib.Core.Path.{subst}
use Prim.Native.String.{◌++◌ as str_append}
use codehive.Prelude.{
  inr, inl, false, sym, ◌≡◌, Bool-cases, if◌then◌else◌, str_eq, ℕ, String, Option, some, none, refl,
  List, [],
}
use codehive.Prelude.Exec.{Result, ok, throw, pure, raise, ◌>>=◌}
use codehive.Errors.{Details, Error, app, validation_error}
use codehive.Http.{Reply, error_reply}
use codehive.Queue.World.{World, Action, load}
use codehive.Queue.Platform.{Platform}
use codehive.Queue.Service.{enqueue, get_job, get_jobs, get_job_count, chosen, update_job}
use codehive.Executor.Process.{ProcResult}
use codehive.Executor.Run.{Host, mark_running, record_result, record_failure, Submitted}
use codehive.Routes.Execute.Begun.{begin_run-redis, begin_run-memory, mark}
use codehive.Routes.Execute.{
  begin_run, started_run, accepted_reply, get_status, SubmitSchema, CodeSubmission, post_execute,
  parsed_body, sent, request_of, submit_body,
}
use codehive.Routes.WorkerApi.{WorkerSchemas, next_job, post_result, post_heartbeat}
use codehive.Routes.Executions.{get_executions}
use codehive.Routes.Stats.{Doubles, get_stats, statistics, refused, stats_of}
use codehive.Routes.Health.{get_health}
use codehive.Routes.Requests.{
  mapped, Request, Draws, handle, respond, behind_hook, behind_limit, replied, started, stated,
  root, health, execute, status, executions, stats, workers, worker, next, result, heartbeat,
}
use codehive.Auth.{Verdict, passed, unauthorized, authorize}
use codehive.System.{Step, Reach}
use codehive.System.Requests.{
  bind-Reach, catch-Reach, one_step, Reach-append, parsed_body-Reach, get_jobs-Reach,
  get_job_count-Reach, next_job-Reach, get_status-Reach, get_executions-Reach, get_health-Reach,
  post_result-Reach, post_heartbeat-Reach,
}

-- what `enqueue` needs of the identifier that `randomUUID` draws: it is not empty, and no job has it
pub record IsNew {S V : Type 0} (P : Platform S V) (id : String) (w : World S) : Type 0 where
  pub named : str_eq id "" ≡ false
  pub unknown : (get_job P id w).0 ≡ ok none

-- a machine and the arguments of a run, of which the step that marks the job takes the time and the
-- identifier
abbrev any_host : String → Host
any_host at = record {
  make_dir = ok "";
  write_file = λ path code. ok tt;
  exec = λ command. ok tt;
  spawn = λ cmd args stdin ms. [];
  decode = λ bytes. "";
  started_at = at;
  marked_at = at;
  finished_at = at;
  failed_at = at;
  start_ms = 0;
  end_ms = 0;
}

abbrev any_run : String → Submitted
any_run id = record { id = id; language = ""; code = ""; stdin = none; timeout_sec = none }

-- a submission draws such an identifier
abbrev pub DrawsNew : {S V B : Type 0} → Platform S V → Draws → Request B → World S → Type 0
DrawsNew P d (execute body) w = IsNew P d.id w
DrawsNew P d _ w = Unit

parsed_body-state :
    {S A : Type 0} (text : String) (x : Result Details A) (w : World S)
    → (parsed_body text x w).1 ≡ w
parsed_body-state text (ok c) w = refl
parsed_body-state text (throw d) w = refl

module _ {S V B A F : Type 0} (P : Platform S V) (Z : SubmitSchema B) (W : WorkerSchemas B)
    (query : String → Result Error A) (N : Doubles F) (time_of : String → F) where
  -- a submission that was parsed
  abbrev submitting :
      String → String → String → CodeSubmission → Action S (Reply × Option Submitted)
  submitting id now at c =
      (if includes supported c.language
        then pure tt
        else raise (app (validation_error (str_append "Unsupported language: " c.language) none)))
      >>= (λ u. enqueue P id now (request_of c.language) >>= (λ r. sent at r c))

  begin_run-Reach : (at id : String) (w : World S) → Reach P w (begin_run at id w).1
  begin_run-Reach at id w = elim (Bool-cases (chosen w)) [
    | inl r ↦ rw (begin_run-redis P at id w r) (one_step Step.connected)
    | inr m ↦
        subst (λ (x : Result Error (Unit {0}) × World S). Reach P w x.1)
          (sym (begin_run-memory P at id w m))
          (catch-Reach (update_job P at id mark) (λ e. tt) w
            (unfold mark_running in one_step (Step.marked (any_host at) (any_run id))))
  ]

  started_run-Reach :
      (at : String) (c : CodeSubmission) (o : Option Job) (w : World S)
      → Reach P w (started_run at c o w).1
  started_run-Reach at c none w = Reach.here
  started_run-Reach at c (some job) w =
      bind-Reach (begin_run at job.id) (λ u. pure (accepted_reply (some job) c)) w
        (begin_run-Reach at job.id w) (λ u e. Reach.here)

  submitting-Reach :
      (id now at : String) (c : CodeSubmission) (w : World S)
      → IsNew P id w
      → Reach P w (submitting id now at c w).1
  submitting-Reach id now at c w n = elim (Bool-cases (includes supported c.language)) [
    | inl known ↦ rw known (
        bind-Reach (enqueue P id now (request_of c.language)) (λ r. sent at r c) w
          (one_step (Step.submitted id now c.language n.named n.unknown))
          (λ r e.
            let after = (enqueue P id now (request_of c.language) w).1 in
            started_run-Reach at c (load after r) after))
    | inr unknown ↦ rw unknown Reach.here
  ]

  post_execute-Reach :
      (id now at : String) (body : B) (w : World S)
      → IsNew P id w
      → Reach P w (post_execute P Z id now at body w).1
  unfolding post_execute
  post_execute-Reach id now at body w n =
      let parsed = parsed_body "Invalid request" (Z.safe_parse body) in
      catch-Reach (submit_body P Z id now at body) (λ e. (error_reply e, none)) w
        (bind-Reach parsed (submitting id now at) w
          (parsed_body-Reach "Invalid request" (Z.safe_parse body) w)
          (λ c e. submitting-Reach id now at c _ (
            subst (IsNew P id) (sym (parsed_body-state "Invalid request" (Z.safe_parse body) w))
              n)))

  get_stats-Reach :
      (day week : String) (w : World S) → Reach P w (get_stats N time_of P day week w).1
  unfolding get_stats
  get_stats-Reach day week w =
      let shown = λ (m : ℕ) (n : ℕ) (js : List Job).
        pure {S = World S} {E = Error} (statistics (stats_of N time_of m n js)) in
      let listed = get_jobs P (pos 500) (pos 0) (some day) in
      let of_day = λ (m : ℕ) (n : ℕ). listed >>= shown m n in
      let of_week = λ (m : ℕ). get_job_count P (some week) >>= of_day m in
      catch-Reach (get_job_count P (some day) >>= of_week) (λ e. refused (error_reply e)) w
        (bind-Reach (get_job_count P (some day)) of_week w (get_job_count-Reach P (some day) w)
          (λ m e.
            bind-Reach (get_job_count P (some week)) (of_day m) _
              (get_job_count-Reach P (some week) _)
              (λ n f.
                bind-Reach listed (shown m n) _ (get_jobs-Reach P (pos 500) (pos 0) (some day) _)
                  (λ js g. Reach.here))))

  mapped-Reach :
      {C D : Type 0} (f : C → D) (m : Action S C) (w : World S)
      → Reach P w (m w).1
      → Reach P w (mapped f m w).1
  mapped-Reach f m w reached = bind-Reach m (λ a. pure (f a)) w reached (λ a e. Reach.here)

  handle-Reach :
      (d : Draws) (q : Request B) (w : World S)
      → DrawsNew P d q w
      → Reach P w (handle P Z W query N time_of d q w).1
  unfolding handle
  handle-Reach d root w n = Reach.here
  handle-Reach d health w n =
      mapped-Reach replied (get_health P query d.uptime d.now) w
        (get_health-Reach P query d.uptime d.now w)
  handle-Reach d (execute body) w n =
      mapped-Reach (λ x. started x.0 x.1) (post_execute P Z d.id d.now d.marked_at body) w
        (post_execute-Reach d.id d.now d.marked_at body w n)
  handle-Reach d (status id) w n =
      mapped-Reach replied (get_status P id) w (get_status-Reach P id w)
  handle-Reach d (executions limit offset) w n =
      mapped-Reach replied (get_executions P limit offset) w (get_executions-Reach P limit offset w)
  handle-Reach d stats w n =
      mapped-Reach stated (get_stats N time_of P d.day_ago d.week_ago) w
        (get_stats-Reach d.day_ago d.week_ago w)
  handle-Reach d workers w n = Reach.here
  handle-Reach d (worker id) w n = Reach.here
  handle-Reach d (next id) w n =
      mapped-Reach replied (next_job P d.now id) w (next_job-Reach P d.now id w)
  handle-Reach d (result id body) w n =
      mapped-Reach replied (post_result P W d.now id body) w
        (post_result-Reach P Z W d.now id body w)
  handle-Reach d (heartbeat body) w n =
      mapped-Reach replied (post_heartbeat P W body) w (post_heartbeat-Reach P Z W body w)

  respond-Reach :
      (env key : Option String) (url : String) (d : Draws) (q : Request B) (w : World S)
      → DrawsNew P d q w
      → Reach P w (respond P Z W query N time_of env url key d q w).1
  unfolding respond
  respond-Reach env key url d q w n = by_verdict (authorize env url key)
    where
      by_limit : (o : Option String) → Reach P w (behind_limit P Z W query N time_of o d q w).1
      by_limit none = handle-Reach d q w n
      by_limit (some after) = Reach.here

      by_verdict : (v : Verdict) → Reach P w (behind_hook P Z W query N time_of v d q w).1
      by_verdict passed = by_limit d.refusal
      by_verdict unauthorized = Reach.here

  -- A process over time: a request is answered, or a background run makes one of its three writes. Over
  -- memory a submission has made the first of them.
  pub data ServesOn (w : World S) : World S → Type 0 where
    started_up : ServesOn w w
    answered :
        {u : World S} (env key : Option String) (url : String) (d : Draws) (q : Request B)
        → ServesOn w u
        → DrawsNew P d q u
        → ServesOn w (respond P Z W query N time_of env url key d q u).1
    marks :
        {u : World S} (H : Host) (a : Submitted)
        → ServesOn w u
        → ServesOn w (mark_running P H a u).1
    records :
        {u : World S} (H : Host) (a : Submitted) (r : ProcResult)
        → ServesOn w u
        → ServesOn w (record_result P H a r u).1
    fails :
        {u : World S} (H : Host) (a : Submitted) (e : Error)
        → ServesOn w u
        → ServesOn w (record_failure P H a e u).1

  -- Whatever requests a server process answers, and whichever writes of the background runs come between
  -- them, where the identifiers that its submissions draw are not empty and no job has them: the state that
  -- it comes to is one that the steps of the queue's calls reach.
  pub ServesOn-Reach : {w v : World S} → ServesOn w v → Reach P w v
  ServesOn-Reach started_up = Reach.here
  ServesOn-Reach (answered env key url d q before n) =
      Reach-append (ServesOn-Reach before) (respond-Reach env key url d q _ n)
  ServesOn-Reach (marks H a before) = Reach.later (ServesOn-Reach before) (Step.marked H a)
  ServesOn-Reach (records H a r before) = Reach.later (ServesOn-Reach before) (Step.recorded H a r)
  ServesOn-Reach (fails H a e before) = Reach.later (ServesOn-Reach before) (Step.failed H a e)
