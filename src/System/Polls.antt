-- ===== src/System/Polls.antt =====
-- What a client that polls `GET /api/status/:id` of api/src/routes/execute.ts sees in the states that the
-- server process reaches.
use codehive.Queue.Spec.Serves.{Serves}
use codehive.System.Changes.{WellFormed}
use codehive.Queue.Spec.{Spec}
use codehive.Routes.Polling.{blank_result, status_answer-known}
use codehive.Routes.WorkerApi.{has_ended}
use codehive.Queue.Spec.Agree.{started}
use codehive.Queue.World.{World}
use codehive.Queue.Platform.{Platform}
use codehive.Routes.Execute.{get_status, result_of}
use codehive.Types.{ExecutionResult, Job}
use codehive.Http.{error_reply, result, reply, Reply}
use codehive.Prelude.{
  get_or, ◌∙◌, sym, inl, inr, ◌⊎◌, if◌then◌else◌, true, refl, none, Bool, arith, ap, false, str_eq,
  some, ◌≡◌, ℕ, Option, String,
}
use codehive.Errors.{validation_error, app, Error, send_error}
use codehive.Prelude.Exec.{throw, ok, Result}
use codehive.System.{Reach, Boots, Undivided}
use codehive.System.Lasting.{HasResult, Change-HasResult}
use codehive.System.Safety.{Sound, Reach-Sound, Undivided-lasts}
use codehive.Routes.Execute.Laws.{status_answer, get_status_lem, job_answer}

code_of : Result Error Reply → ℕ
code_of (ok r) = r.code
code_of (throw e) = 0

-- an answer of 200 is made of a known job
answered_job :
    (id : String) (o : Option Job) (r : ExecutionResult)
    → ◌≡◌ {A = Result Error Reply} (ok (status_answer id o)) (ok (reply 200 (result r)))
    → (j : Job) × (o ≡ some j) × (result_of j ≡ r) × (str_eq id "" ≡ false)
unfolding code_of send_error
answered_job id o r e = by_name (str_eq id "") refl e
  where
    by_job :
        (o : Option Job)
        → ◌≡◌ {A = Result Error Reply} (ok (job_answer id o)) (ok (reply 200 (result r)))
        → (j : Job) × (o ≡ some j) × (result_of j ≡ r)
    by_job none f =
        let absurd_code : 404 ≡ 200 = ap code_of f in absurd (omega (arith, absurd_code))
    by_job (some j) f = (j, refl, cc)

    by_name :
        (b : Bool)
        → str_eq id "" ≡ b
        → ◌≡◌ {A = Result Error Reply}
            (ok (
              if b
              then error_reply (app (validation_error "Missing job id" none))
              else job_answer id o))
            (ok (reply 200 (result r)))
        → (j : Job) × (o ≡ some j) × (result_of j ≡ r) × (str_eq id "" ≡ false)
    by_name true n f =
        let absurd_code : 400 ≡ 200 = ap code_of f in absurd (omega (arith, absurd_code))
    by_name false n f = let (j, at_o, is_r) = by_job o f in (j, at_o, is_r, n)

result_of-eq :
    (j : Job) (o : Option ExecutionResult)
    → j.result ≡ o
    → result_of j ≡ get_or o (blank_result j.id j.status)
result_of-eq j o e = ap (λ x. get_or x (blank_result j.id j.status)) e

-- the result that is shown of a job, its own or the blank one
shown :
    (j : Job) (o : Option ExecutionResult)
    → j.result ≡ o
    → (r : ExecutionResult) → result_of j ≡ r
    → ((o ≡ some r) ⊎ ((o ≡ none) × (r.id ≡ j.id) × (r.status ≡ j.status)))
shown j none e r q =
    let same : blank_result j.id j.status ≡ r = sym (result_of-eq j none e) ∙ q in
    inr (
      refl,
      ap (λ (x : ExecutionResult). x.id) (sym same),
      ap (λ (x : ExecutionResult). x.status) (sym same),
    )
shown j (some x) e r q = inl (ap some (sym (result_of-eq j (some x) e) ∙ q))

-- what is shown of a job stands under its own identifier
pub result_of-own :
    {s : Spec} → WellFormed s → (id : String) (j : Job) → s.job id ≡ some j → (result_of j).id ≡ id
result_of-own h id j known = elim (shown j j.result refl (result_of j) refl) [
  | inl own ↦ (h.ended id j (result_of j) known own).0
  | inr blank ↦ blank.1 ∙ h.keyed id j known
]

-- a known job is answered with its result
pub get_status-known :
    {S V : Type 0} {P : Platform S V} {w : World S} {s : Spec}
    → Serves P w s
    → (id : String) (j : Job) → str_eq id "" ≡ false
    → s.job id ≡ some j
    → (get_status P id w).0 ≡ ok (reply 200 (result (result_of j)))
get_status-known {P = P} {s = s} h id j named known =
    (get_status_lem P h id).0 ∙ ap ok (status_answer-known id (s.job id) j named known)

module _ {S V : Type 0} {P : Platform S V} (host : Option String) (server : S) {w : World S}
    (b : Boots P host server) (reached : Reach P (started host server) w) (id : String)
    (r : ExecutionResult) (polled : (get_status P id w).0 ≡ ok (reply 200 (result r))) where
  pub polled_job :
      (h : Sound P w)
      → (j : Job) × (h.view.job id ≡ some j) × (result_of j ≡ r) × (str_eq id "" ≡ false)
  polled_job h = answered_job id (h.view.job id) r (sym (get_status_lem P h.serves id).0 ∙ polled)

  -- In every state that the server process reaches, a poll that is answered by 200 shows a result under
  -- the identifier that was asked for.
  pub poll-own : r.id ≡ id
  poll-own =
      let h = Reach-Sound host server b reached in
      let (j, known, is_r, named) = polled_job h in
      sym (ap (λ (x : ExecutionResult). x.id) is_r) ∙ result_of-own h.formed id j known

  has_result : has_ended r.status ≡ true → (h : Sound P w) → HasResult id h.view
  has_result over h =
      let (j, known, is_r, named) = polled_job h in
      elim (shown j j.result refl r is_r) [
        | inl own ↦ record { there = j; known = known; outcome = r; has = own }
        | inr blank ↦
            let (t, has) = h.formed.over id j known (ap has_ended (sym blank.2) ∙ over) in
            record { there = j; known = known; outcome = t; has = has }
      ]

  -- The server process starts without a Redis host, or with a server that holds nothing under the
  -- queue's keys. In a state that it reaches, a poll has shown a result whose status is `completed`,
  -- `failed` or `timeout`. Then every later poll of that job is answered by 200 and a result of that
  -- job that has ended, whatever calls come between, as long as no `updateJob` over Redis writes back a copy
  -- that it read before another call came between its GET and its SET.
  pub ended_stays :
      {v : World S}
      → has_ended r.status ≡ true
      → (more : Reach P w v) → Undivided P more
      → (t : ExecutionResult) × ((get_status P id v).0 ≡ ok (reply 200 (result t)))
        × (t.id ≡ id)
        × (has_ended t.status ≡ true)
  ended_stays over more undivided =
      let h = Reach-Sound host server b reached in
      let (j, known, is_r, named) = polled_job h in
      let (k, has) =
        Undivided-lasts (HasResult id) (λ s t c. Change-HasResult id c) more undivided h
          (has_result over h) in
      let (own, ended) = k.formed.ended id has.there has.outcome has.known has.has in
      (
        has.outcome,
        get_status-known k.serves id has.there named has.known
            ∙ ap (λ x. ok (reply 200 (result x)))
                (result_of-eq has.there (some has.outcome) has.has),
        own,
        ended,
      )
