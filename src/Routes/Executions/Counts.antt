-- ===== src/Routes/Executions/Counts.antt =====
-- `getJobCount` of api/src/services/queue.ts, which the routes of api/src/routes/executions.ts show.
use codehive.Prelude.Int.{minus_one, ◌+ℤ◌, pos, ℤ}
use codehive.Queue.Spec.Redis.Calls.{look_up-Stores}
use codehive.Queue.Spec.Memory.Preserve.{look_up-Implements}
use codehive.Routes.Executions.Times.{text_ge-empty}
use codehive.Prelude.Exec.{ok}
use codehive.Queue.Service.{
  queue_key, get_jobs, get_redis, truthy_text, get_job_count, collect_one, collected,
}
use codehive.Queue.Spec.Redis.Relation.{Stores}
use codehive.Queue.Spec.Memory.Relation.{Implements}
use codehive.Types.{Job}
use codehive.Queue.World.{World}
use codehive.Queue.Platform.{Platform}
use codehive.Queue.Memory.{
  slice, mem_get_jobs, since_order, mem_get_job_count, text_ge, truthy, is_since,
}
use codehive.Queue.Spec.{Spec}
use codehive.Prelude.{
  length-append, ◌∙◌, ◌⊎◌, ap, inr, ◌+◌, inl, Bool-cases, reverse, ◌++◌, refl, [], arith, some, ◌∷◌,
  length, false, ◌≡◌, str_eq, keep, ℕ, Option, List, String,
}
use codehive.Routes.Executions.Laws.{jobs_of}
use mathlib.Core.Option
use mathlib.Core.List.{reverse-cons}
use codehive.Prelude.{none, some}
use codehive.Queue.Spec.Serves.{Serves}

-- the jobs that were made at a time or after it
abbrev pub made_since : String → List Job → List Job
made_since t = keep (λ j. text_ge j.created_at t)

-- how many jobs wait: all identifiers, or the jobs that were made since a time that is given
abbrev pub count_from : Spec → Option String → ℕ
count_from s none = length s.pending
count_from s (some t) = length (made_since t (jobs_of s.job s.pending))

abbrev pub waiting_count : Spec → Option String → ℕ
waiting_count s since = count_from s (truthy since)

pub truthy-cases :
    (since : Option String)
    → (truthy since ≡ none) ⊎ ((t : String) × (truthy since ≡ some t) × (str_eq t "" ≡ false))
truthy-cases none = inl refl
truthy-cases (some t) = elim (Bool-cases (str_eq t "")) [
  | inl blank ↦ inl (rw blank refl)
  | inr given ↦ inr (t, rw given refl, given)
]

length-reverse : (ids : List String) → length (reverse ids) ≡ length ids
length-reverse [] = refl
length-reverse (x ∷ ids) =
    ap length (reverse-cons x ids)
    ∙ omega (arith, length-append (reverse ids) (x ∷ []), length-reverse ids)

keep-is_since :
    {S : Type 0} {w : World S} {s : Spec} (h : Implements w s) (t : String)
    → str_eq t "" ≡ false
    → (ids : List String)
    → length (keep (is_since w t) ids) ≡ length (made_since t (jobs_of s.job ids))
unfolding is_since
keep-is_since h t n [] = refl
keep-is_since {w = w} {s} h t n (id ∷ ids) =
    ground (arith, h.jobs id, keep-is_since h t n ids, text_ge-empty t n)

length-since_order :
    {S : Type 0} {w : World S} {s : Spec}
    → Implements w s
    → (since : Option String) → length (since_order w since) ≡ waiting_count s since
unfolding since_order
length-since_order {s = s} h since = elim (truthy-cases since) [
  | inl n ↦ rw (n, since_order) (ap length h.order)
  | inr (t, e, given) ↦ rw (e, since_order, h.order) (keep-is_since h t given s.pending)
]

module _ {S V : Type 0} (P : Platform S V) {w : World S} {s : Spec} (h : Stores P w s) (t : String)
    (n : str_eq t "" ≡ false) where
  since_text :
      (o : Option Job) (js : List Job)
      → collect_one P (some t) (truthy_text P (Option.map P.stringify o)) (ok (made_since t js))
        ≡ ok (made_since t (elim o [ none ↦ js | some j ↦ j ∷ js ]))
  since_text none js = refl
  since_text (some j) js = rw (P.stringify-ne, P.parse-stringify) (ground (arith, n))

  pub collected-since :
      (ids : List String)
      → collected P (some t) w.server ids ≡ ok (made_since t (jobs_of s.job ids))
  unfolding collected
  collected-since [] = refl
  collected-since (id ∷ ids) = rw (h.jobs id, collected-since ids, since_text)

module _ (job : String → Option Job) (t : String) where
  tally : List String → ℕ
  tally ids = length (made_since t (jobs_of job ids))

  tally-append : (xs ys : List String) → tally (xs ++ ys) ≡ tally xs + tally ys
  unfolding tally
  tally-append [] ys = omega arith
  tally-append (x ∷ xs) ys = ground (arith, tally-append xs ys)

  tally-reverse : (ids : List String) → tally (reverse ids) ≡ tally ids
  tally-reverse [] = refl
  tally-reverse (x ∷ ids) =
      ap tally (reverse-cons x ids)
      ∙ omega
          (arith, tally-append (reverse ids) (x ∷ []), tally-append (x ∷ []) ids, tally-reverse ids)

module _ {S V : Type 0} (P : Platform S V) {w : World S} {s : Spec} where
  count_memory :
      Implements w s
      → (since : Option String)
      → ((get_job_count P since w).0 ≡ ok (waiting_count s since))
        × ((get_job_count P since w).1 ≡ get_redis w)
  unfolding get_job_count get_redis mem_get_job_count
  count_memory h since = (
    rw h.backend (ap ok (length-since_order (unfold get_redis in look_up-Implements h) since)),
    rw h.backend refl,
  )

  count_redis :
      Stores P w s
      → (since : Option String)
      → ((get_job_count P since w).0 ≡ ok (waiting_count s since))
        × ((get_job_count P since w).1 ≡ get_redis w)
  unfolding get_job_count get_redis
  count_redis h since = elim (truthy-cases since) [
    | inl n ↦ (
      rw (h.backend, n, P.llen-items, h.order) (ap ok (length-reverse s.pending)),
      rw (h.backend, n) refl,
    )
    | inr (t, e, given) ↦ (
      rw (h.backend, e, P.lrange-all, h.order, collected-since P h t given)
          (ap ok (unfold tally in tally-reverse s.job t s.pending)),
      rw (h.backend, e) refl,
    )
  ]

module _ {S V : Type 0} (P : Platform S V) {w : World S} {s : Spec} where
  -- Over either backend, `getJobCount` counts all waiting identifiers where no time is given, or the empty
  -- text, and else the waiting jobs that were made at that time or after it.
  pub get_job_count_lem :
      Serves P w s
      → (since : Option String) → (get_job_count P since w).0 ≡ ok (waiting_count s since)
  get_job_count_lem (inl h) since = (count_memory P h since).0
  get_job_count_lem (inr h) since = (count_redis P h since).0

  pub get_job_count_state :
      Serves P w s → (since : Option String) → (get_job_count P since w).1 ≡ get_redis w
  get_job_count_state (inl h) since = (count_memory P h since).1
  get_job_count_state (inr h) since = (count_redis P h since).1

  pub get_redis-Serves : Serves P w s → Serves P (get_redis w) s
  get_redis-Serves (inl h) = inl (look_up-Implements h)
  get_redis-Serves (inr h) = inr (look_up-Stores P h)

  -- with a time, `getJobs` does not throw
  pub get_jobs-ok :
      Serves P w s
      → (limit offset : ℤ) (t : String) → str_eq t "" ≡ false
      → (js : List Job) × ((get_jobs P limit offset (some t) w).0 ≡ ok js)
  unfolding get_jobs
  get_jobs-ok (inl h) limit offset t n =
      (mem_get_jobs limit offset (some t) (get_redis w), rw h.backend refl)
  get_jobs-ok (inr h) limit offset t n = (
    slice (pos 0) limit (
        made_since t (
          jobs_of s.job
            (P.lrange queue_key offset (offset +ℤ limit +ℤ minus_one) (get_redis w).server))),
    rw (h.backend, collected-since P (look_up-Stores P h) t n) refl,
  )
