-- ===== src/System/Requests.antt =====
-- The states that the requests of Routes/Requests lead to are states that the steps reach.
use codehive.Http.{ok_true, jobs, reply, error_reply}
use codehive.Routes.Executions.Counts.{truthy-cases}
use codehive.Routes.Health.{db_health, health_reply, get_health}
use codehive.Routes.Executions.{offset_of, limit_of, get_executions}
use mathlib.Core.Path.{subst}
use codehive.Prelude.Int.{ℤ}
use codehive.Types.{Job}
use codehive.Prelude.{
  inr, true, inl, sym, str_eq, Bool-cases, ◌≡◌, ℕ, String, Option, some, none, refl, List,
}
use codehive.Prelude.Exec.{try_catch, ◌>>=◌, Result, ok, throw, continue, caught, pure}
use codehive.Errors.{Details, Error}
use codehive.Routes.Executions.Listing.{get_jobs_state}
use codehive.Queue.World.{World, Action, Ref, load}
use codehive.Queue.Platform.{Platform}
use codehive.Queue.Service.{
  update_job, chosen, dequeue, get_job, get_jobs, get_job_count, get_redis, health_check,
}
use codehive.Routes.Execute.{parsed_body, found_status, SubmitSchema, get_status}
use codehive.Routes.WorkerApi.{
  send_job, settle, claim, settle_found, has_ended, Report, claim_found, claim_object,
  WorkerSchemas, next_job, post_result, post_heartbeat,
}
use codehive.System.{Step, Reach}

module _ {S V : Type 0} {P : Platform S V} where
  pub Reach-append : {u v w : World S} → Reach P u v → Reach P v w → Reach P u w
  Reach-append r Reach.here = r
  Reach-append r (Reach.later q m) = Reach.later (Reach-append r q) m

  pub one_step : {u v : World S} → Step P u v → Reach P u v
  one_step m = Reach.later Reach.here m

  -- an action goes on behind its first part, where that does not throw
  pub behind-Reach :
      {A C : Type 0} (m : Action S A) (f : A → Action S C) (w : World S)
      → ((a : A) → (m w).0 ≡ ok a → Reach P (m w).1 (f a (m w).1).1)
      → Reach P (m w).1 ((m >>= f) w).1
  behind-Reach {A = A} m f w more = by_result (m w).0 refl
    where
      by_result : (r : Result Error A) → (m w).0 ≡ r → Reach P (m w).1 (continue r f (m w).1).1
      by_result (ok a) e = more a e
      by_result (throw err) e = Reach.here

  pub bind-Reach :
      {A C : Type 0} (m : Action S A) (f : A → Action S C) (w : World S)
      → Reach P w (m w).1
      → ((a : A) → (m w).0 ≡ ok a → Reach P (m w).1 (f a (m w).1).1)
      → Reach P w ((m >>= f) w).1
  bind-Reach m f w reached more = Reach-append reached (behind-Reach m f w more)

  -- `catch` leaves the state as it is
  pub catch-Reach :
      {A : Type 0} {u : World S} (m : Action S A) (h : Error → A) (w : World S)
      → Reach P u (m w).1
      → Reach P u (try_catch m (λ e. pure (h e)) w).1
  catch-Reach {A = A} {u = u} m h w reached = by_result (m w).0
    where
      by_result : (r : Result Error A) → Reach P u (caught r (λ e. pure (h e)) (m w).1).1
      by_result (ok a) = reached
      by_result (throw err) = reached

  pub parsed_body-Reach :
      {A : Type 0} (text : String) (x : Result Details A) (w : World S)
      → Reach P w (parsed_body text x w).1
  parsed_body-Reach text (ok c) w = Reach.here
  parsed_body-Reach text (throw d) w = Reach.here

-- a body that the schema accepts is what `safeParse` makes of it
parsed_body-ok :
    {S A : Type 0} (text : String) (x : Result Details A) (w : World S) (a : A)
    → (parsed_body text x w).0 ≡ ok a
    → x ≡ ok a
parsed_body-ok text (ok c) w a e = cc
parsed_body-ok text (throw d) w a e = cc

pub get_job_count_state :
    {S V : Type 0} (P : Platform S V) (since : Option String) (w : World S)
    → (get_job_count P since w).1 ≡ get_redis w
unfolding get_job_count get_redis
get_job_count_state P since w = elim (Bool-cases (chosen w)) [
  | inl r ↦ elim (truthy-cases since) [
    | inl n ↦ rw (r, n) refl
    | inr (t, e, given) ↦ rw (r, e) refl
  ]
  | inr m ↦ rw m refl
]

module _ {S V : Type 0} (P : Platform S V) where
  claim_object-Reach :
      (now id : String) (r : Ref) (o : Option Job) (v : World S)
      → Reach P v (claim_object P now id r o v).1
  claim_object-Reach now id r none v = Reach.here
  claim_object-Reach now id r (some j) v =
      bind-Reach (update_job P now j.id (claim id)) (λ u. send_job r) v
        (one_step (Step.claimed now j.id id)) (λ u e. Reach.here)

  pub claim_found-Reach :
      (now id : String) (found : Option Ref) (v : World S)
      → Reach P v (claim_found P now id found v).1
  claim_found-Reach now id none v = Reach.here
  claim_found-Reach now id (some r) v = claim_object-Reach now id r (load v r) v

  pub next_job-Reach : (now id : String) (w : World S) → Reach P w (next_job P now id w).1
  unfolding next_job
  next_job-Reach now id w = catch-Reach (dequeue P >>= claim_found P now id) error_reply w (
      bind-Reach (dequeue P) (claim_found P now id) w (one_step Step.taken)
        (λ found e. claim_found-Reach now id found (dequeue P w).1))

  found_status-Reach :
      (id : String) (found : Option Ref) (v : World S) → Reach P v (found_status P id found v).1
  found_status-Reach id none v = Reach.here
  found_status-Reach id (some r) v = Reach.here

  pub get_status-Reach : (id : String) (w : World S) → Reach P w (get_status P id w).1
  unfolding get_status
  get_status-Reach id w = elim (Bool-cases (str_eq id "")) [
    | inl blank ↦ rw blank Reach.here
    | inr given ↦ rw given (
        catch-Reach (get_job P id >>= found_status P id) error_reply w (
          bind-Reach (get_job P id) (found_status P id) w (one_step (Step.looked_up id))
            (λ found e. found_status-Reach id found (get_job P id w).1)))
  ]

  pub get_jobs-Reach :
      (limit offset : ℤ) (since : Option String) (w : World S)
      → Reach P w (get_jobs P limit offset since w).1
  get_jobs-Reach limit offset since w =
      subst (Reach P w) (sym (get_jobs_state P w limit offset since)) (one_step Step.connected)

  pub get_job_count-Reach :
      (since : Option String) (w : World S) → Reach P w (get_job_count P since w).1
  get_job_count-Reach since w =
      subst (Reach P w) (sym (get_job_count_state P since w)) (one_step Step.connected)

  pub get_executions-Reach :
      (limit offset : Option ℤ) (w : World S) → Reach P w (get_executions P limit offset w).1
  unfolding get_executions
  get_executions-Reach limit offset w =
      let listed = get_jobs P (limit_of limit) (offset_of offset) none in
      let counted = λ (items : List Job).
        get_job_count P none >>= (λ (total : ℕ). pure (reply 200 (jobs items total))) in
      catch-Reach (listed >>= counted) error_reply w (
        bind-Reach listed counted w (get_jobs-Reach _ _ none w) (λ items e.
          bind-Reach (get_job_count P none) (λ (total : ℕ). pure (reply 200 (jobs items total))) _
            (get_job_count-Reach none _) (λ total f. Reach.here)))

  pub get_health-Reach :
      {A : Type 0} (query : String → Result Error A) (uptime : ℕ) (now : String) (w : World S)
      → Reach P w (get_health P query uptime now w).1
  unfolding get_health
  get_health-Reach query uptime now w =
      bind-Reach (health_check P) (λ redis. pure (health_reply uptime now (db_health query) redis))
        w (subst (Reach P w) (sym checked) (one_step Step.connected)) (λ redis e. Reach.here)
    where
      checked : (health_check P w).1 ≡ get_redis w
      checked =
          (unfold health_check get_redis in
            elim (Bool-cases (chosen w)) [ inl r ↦ rw r refl | inr m ↦ rw m refl ])

module _ {S V B : Type 0} (P : Platform S V) (Z : SubmitSchema B) (W : WorkerSchemas B) where
  settle_found-Reach :
      (now id : String) (r : Report) (found : Option Ref) (v : World S)
      → has_ended r.status ≡ true
      → Reach P v (settle_found P now id r found v).1
  settle_found-Reach now id r none v ended = Reach.here
  settle_found-Reach now id r (some q) v ended =
      bind-Reach (update_job P now id (settle id r)) (λ u. pure (reply 200 ok_true)) v
        (one_step (Step.settled now id r ended)) (λ u e. Reach.here)

  pub post_result-Reach :
      (now id : String) (body : B) (w : World S) → Reach P w (post_result P W now id body w).1
  unfolding post_result
  post_result-Reach now id body w =
      let parsed = parsed_body "Invalid result" (W.parse_report body) in
      let settling = λ (r : Report). get_job P id >>= settle_found P now id r in
      catch-Reach (parsed >>= settling) error_reply w (
        bind-Reach parsed settling w (parsed_body-Reach "Invalid result" (W.parse_report body) w)
          (λ r e.
            let ended =
              W.status_ended body r (parsed_body-ok "Invalid result" (W.parse_report body) w r e) in
            bind-Reach (get_job P id) (settle_found P now id r) _ (one_step (Step.looked_up id))
              (λ found f. settle_found-Reach now id r found _ ended)))

  pub post_heartbeat-Reach : (body : B) (w : World S) → Reach P w (post_heartbeat P W body w).1
  unfolding post_heartbeat
  post_heartbeat-Reach body w =
      let parsed = parsed_body "Invalid heartbeat" (W.parse_heartbeat body) in
      catch-Reach (parsed >>= (λ h. pure (reply 200 ok_true))) error_reply w (
        bind-Reach parsed (λ h. pure (reply 200 ok_true)) w
          (parsed_body-Reach "Invalid heartbeat" (W.parse_heartbeat body) w) (λ h e. Reach.here))
