-- ===== src/Routes/Requests/Laws.antt =====
-- That every request is answered, and what a request without the key changes.
use mathlib.Core.Path.{subst}
use codehive.Routes.Workers.{get_worker, no_workers, list_workers}
use codehive.Routes.Root.{root_page}
use codehive.Prelude.Int.{ℤ}
use codehive.Routes.Executions.{get_executions}
use codehive.Routes.Health.{db_health, health_reply, get_health}
use codehive.Routes.Stats.{get_stats, Doubles}
use codehive.Routes.WorkerApi.{post_heartbeat, post_result, next_job, WorkerSchemas}
use codehive.Routes.Execute.{get_status, post_execute, SubmitSchema}
use codehive.Queue.Platform.{Platform}
use codehive.Server.Config.{limit_body, rate_limit_max}
use codehive.Errors.{Error}
use codehive.Prelude.{
  sym, none, inr, ap, inl, Bool-cases, some, ◌⊎◌, true, false, str_eq, ◌≡◌, ℕ, String, Option, refl,
}
use codehive.Prelude.Exec.{pure, caught, Result, ok, throw}
use codehive.Auth.{Verdict, passed, unauthorized, authorize, is_public, authorize-passed_iff}
use codehive.Queue.Service.{health_check, chosen, get_redis}
use codehive.Queue.World.{Action, World}
use codehive.Routes.Requests.{
  limited, behind_limit, page, replied, started, stated, mapped, behind_hook, Request, Answer,
  Draws, handle, respond, denied, root, health, execute, status, executions, stats, workers, worker,
  next, result, heartbeat,
}

-- an action that answers from every state
abbrev pub Answers : {S A : Type 0} → Action S A → Type 0
Answers {S} {A} m = (w : World S) → (a : A) × ((m w).0 ≡ ok a)

-- `catch` that turns every error into an answer
caught-ok :
    {S A : Type 0} (r : Result Error A) (h : Error → A) (w : World S)
    → (a : A) × ((caught r (λ e. pure (h e)) w).0 ≡ ok a)
caught-ok (ok a) h w = (a, refl)
caught-ok (throw e) h w = (h e, refl)

mapped-Answers : {S A C : Type 0} (f : A → C) (m : Action S A) → Answers m → Answers (mapped f m)
mapped-Answers f m answers w = let (a, e) = answers w in (f a, rw e refl)

-- what becomes of a request that is allowed, by what the rate limiter does with it
abbrev pub Limited :
    {S F : Type 0} → Draws → World S → (handled x : Result Error (Answer F) × World S) → Type 0
Limited d w handled x =
    ((d.refusal ≡ none) × (x ≡ handled))
    ⊎ ((after : String) × (d.refusal ≡ some after)
        × (x ≡ (ok (limited (limit_body d.print rate_limit_max after)), w)))

module _ {S V B A F : Type 0} (P : Platform S V) (Z : SubmitSchema B) (W : WorkerSchemas B)
    (query : String → Result Error A) (N : Doubles F) (time_of : String → F) where
  health_check-Answers : Answers (health_check P)
  unfolding health_check
  health_check-Answers w = elim (Bool-cases (chosen w)) [
    | inl r ↦ (P.ping (get_redis w).server, rw r refl)
    | inr m ↦ (true, rw m refl)
  ]

  get_health-Answers : (uptime : ℕ) (now : String) → Answers (get_health P query uptime now)
  unfolding get_health
  get_health-Answers uptime now =
      mapped-Answers (health_reply uptime now (db_health query)) (health_check P)
        health_check-Answers

  post_execute-Answers : (id now at : String) (body : B) → Answers (post_execute P Z id now at body)
  unfolding post_execute
  post_execute-Answers id now at body w = caught-ok _ _ _

  get_status-Answers : (id : String) → Answers (get_status P id)
  unfolding get_status
  get_status-Answers id w = caught-ok _ _ _

  get_executions-Answers : (limit offset : Option ℤ) → Answers (get_executions P limit offset)
  unfolding get_executions
  get_executions-Answers limit offset w = caught-ok _ _ _

  get_stats-Answers : (day_ago week_ago : String) → Answers (get_stats N time_of P day_ago week_ago)
  unfolding get_stats
  get_stats-Answers day_ago week_ago w = caught-ok _ _ _

  next_job-Answers : (now id : String) → Answers (next_job P now id)
  unfolding next_job
  next_job-Answers now id w = caught-ok _ _ _

  post_result-Answers : (now id : String) (body : B) → Answers (post_result P W now id body)
  unfolding post_result
  post_result-Answers now id body w = caught-ok _ _ _

  post_heartbeat-Answers : (body : B) → Answers (post_heartbeat P W body)
  unfolding post_heartbeat
  post_heartbeat-Answers body w = caught-ok _ _ _

  handle-Answers : (d : Draws) (q : Request B) → Answers (handle P Z W query N time_of d q)
  unfolding handle
  handle-Answers d root w = (page root_page, refl)
  handle-Answers d health w =
      mapped-Answers replied (get_health P query d.uptime d.now) (get_health-Answers d.uptime d.now)
        w
  handle-Answers d (execute body) w =
      mapped-Answers (λ x. started x.0 x.1) (post_execute P Z d.id d.now d.marked_at body)
        (post_execute-Answers d.id d.now d.marked_at body) w
  handle-Answers d (status id) w =
      mapped-Answers replied (get_status P id) (get_status-Answers id) w
  handle-Answers d (executions limit offset) w =
      mapped-Answers replied (get_executions P limit offset) (get_executions-Answers limit offset) w
  handle-Answers d stats w =
      mapped-Answers stated (get_stats N time_of P d.day_ago d.week_ago)
        (get_stats-Answers d.day_ago d.week_ago) w
  handle-Answers d workers w = (replied (list_workers no_workers), refl)
  handle-Answers d (worker id) w = (replied (get_worker id no_workers), refl)
  handle-Answers d (next id) w =
      mapped-Answers replied (next_job P d.now id) (next_job-Answers d.now id) w
  handle-Answers d (result id body) w =
      mapped-Answers replied (post_result P W d.now id body) (post_result-Answers d.now id body) w
  handle-Answers d (heartbeat body) w =
      mapped-Answers replied (post_heartbeat P W body) (post_heartbeat-Answers body) w

  behind_limit-Answers :
      (o : Option String) (d : Draws) (q : Request B)
      → Answers (behind_limit P Z W query N time_of o d q)
  behind_limit-Answers none d q w = handle-Answers d q w
  behind_limit-Answers (some after) d q w =
      (limited (limit_body d.print rate_limit_max after), refl)

  -- Every request is answered, whichever route it leads to, whatever the state of the server process is
  -- and whatever Redis and `JSON.parse` give: no handler's promise is rejected.
  pub respond-answers :
      (env key : Option String) (url : String) (d : Draws) (q : Request B) (w : World S)
      → (a : Answer F) × ((respond P Z W query N time_of env url key d q w).0 ≡ ok a)
  unfolding respond
  respond-answers env key url d q w = by_verdict (authorize env url key) refl
    where
      by_verdict :
          (v : Verdict)
          → authorize env url key ≡ v
          → (a : Answer F) × ((respond P Z W query N time_of env url key d q w).0 ≡ ok a)
      by_verdict passed e = rw e (behind_limit-Answers d.refusal d q w)
      by_verdict unauthorized e = rw e (denied 401 "Unauthorized", refl)

  behind_limit-Limited :
      (d : Draws) (q : Request B) (w : World S)
      → Limited d w
          (handle P Z W query N time_of d q w)
          (behind_limit P Z W query N time_of d.refusal d q w)
  behind_limit-Limited d q w = by_refusal d.refusal refl
    where
      by_refusal :
          (o : Option String)
          → d.refusal ≡ o
          → Limited d w
              (handle P Z W query N time_of d q w)
              (behind_limit P Z W query N time_of o d q w)
      by_refusal none e = inl (e, refl)
      by_refusal (some after) e = inr (after, e, refl)

  -- Where an API key is set that is not empty, a request is allowed if its URL is public or it sends that
  -- key. Every other one is answered by 401. An allowed one is handled by its route where the rate limiter
  -- admits it; where that refuses it, it is answered by 429 and the text of the limit. A request that is
  -- not handled does not change the state of the server process.
  pub respond-cases :
      (api_key url : String) (key : Option String)
      → str_eq api_key "" ≡ false
      → (d : Draws) (q : Request B) (w : World S)
      → (((is_public url ≡ true) ⊎ (key ≡ some api_key))
          × Limited d w
              (handle P Z W query N time_of d q w)
              (respond P Z W query N time_of (some api_key) url key d q w))
        ⊎ (¬ ((is_public url ≡ true) ⊎ (key ≡ some api_key))
            × (respond P Z W query N time_of (some api_key) url key d q w
                ≡ (ok (denied 401 "Unauthorized"), w)))
  unfolding respond
  respond-cases api_key url key n d q w = by_verdict (authorize (some api_key) url key) refl
    where
      by_verdict :
          (v : Verdict)
          → authorize (some api_key) url key ≡ v
          → (((is_public url ≡ true) ⊎ (key ≡ some api_key))
              × Limited d w
                  (handle P Z W query N time_of d q w)
                  (behind_hook P Z W query N time_of (authorize (some api_key) url key) d q w))
            ⊎ (¬ ((is_public url ≡ true) ⊎ (key ≡ some api_key))
                × (behind_hook P Z W query N time_of (authorize (some api_key) url key) d q w
                    ≡ (ok (denied 401 "Unauthorized"), w)))
      by_verdict passed e = inl (
        (authorize-passed_iff api_key url key n).0 e,
        subst
            (λ v.
              Limited d w (handle P Z W query N time_of d q w)
                (behind_hook P Z W query N time_of v d q w))
            (sym e) (behind_limit-Limited d q w),
      )
      by_verdict unauthorized e = inr (
        (λ allowed. cc (e, (authorize-passed_iff api_key url key n).1 allowed)),
        ap (λ v. behind_hook P Z W query N time_of v d q w) e,
      )
