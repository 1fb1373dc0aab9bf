-- ===== src/Routes/Stats/Average.antt =====
-- The average and the rate of `GET /api/stats` of api/src/routes/executions.ts, described job by job: the
-- sum of the spans, and the number of the jobs that have completed.
use codehive.Queue.Memory.{truthy}
use codehive.Prelude.Int.{pos}
use codehive.Types.{is_completed, ExecutionResult, Job}
use codehive.Prelude.{
  zero, suc, ap, inr, arith, inl, ◌∙◌, refl, Bool-cases, ◌+◌, ◌≡◌, [], none, length, ◌∷◌, some,
  if◌then◌else◌, ℕ, List, Option, String,
}
use codehive.Routes.Stats.{
  add_span, add_duration, success_rate, average, completed_jobs, total_duration, Doubles,
}

module _ {F : Type 0} (N : Doubles F) (time_of : String → F) where
  -- the start and the end of a job that has completed with both times
  abbrev pub both_times : Option String → Option String → Option (String × String)
  both_times (some started) (some finished) = some (started, finished)
  both_times _ _ = none

  abbrev pub result_times : Option ExecutionResult → Option (String × String)
  result_times none = none
  result_times (some r) = both_times (truthy r.started_at) (truthy r.finished_at)

  abbrev pub times_of : Job → Option (String × String)
  times_of job = if is_completed job.status then result_times job.result else none

  abbrev pub plus_span : F → Option (String × String) → F
  plus_span sum none = sum
  plus_span sum (some (started, finished)) =
      N.add sum (N.subtract (time_of finished) (time_of started))

  -- the spans of a list of jobs of any status, added to a sum from the first job to the last
  unfoldable pub all_spans : F → List Job → F
  all_spans sum [] = sum
  all_spans sum (j ∷ jobs) = all_spans (plus_span sum (times_of j)) jobs

  unfoldable pub count_completed : List Job → ℕ
  count_completed [] = 0
  count_completed (j ∷ jobs) =
      let rest = count_completed jobs in if is_completed j.status then rest + 1 else rest

  -- `x / n`, or what stands for it where there is nothing to divide by
  abbrev pub per : F → ℕ → F → F
  per x zero otherwise = otherwise
  per x (suc n) otherwise = N.divide x (N.of_ℤ (pos (suc n)))

  abbrev pub average_of : List Job → F
  average_of jobs = per (all_spans (N.of_ℤ (pos 0)) jobs) (count_completed jobs) (N.of_ℤ (pos 0))

  abbrev pub rate_of : List Job → F
  rate_of jobs = per (N.of_ℤ (pos (count_completed jobs))) (length jobs) (N.of_ℤ (pos 1))

  length-completed_jobs : (jobs : List Job) → length (completed_jobs jobs) ≡ count_completed jobs
  unfolding count_completed
  length-completed_jobs [] = refl
  length-completed_jobs (j ∷ jobs) = elim (Bool-cases (is_completed j.status)) [
    | inl c ↦ rw (c, length-completed_jobs jobs) (omega arith)
    | inr c ↦ rw (c, length-completed_jobs jobs) refl
  ]

  add_duration-plus :
      (sum : F) (o : Option ExecutionResult)
      → add_duration N time_of sum o ≡ plus_span sum (result_times o)
  add_duration-plus sum none = refl
  add_duration-plus sum (some r) = by_times (truthy r.started_at) (truthy r.finished_at)
    where
      by_times : (a b : Option String) → add_span N time_of sum a b ≡ plus_span sum (both_times a b)
      by_times none none = refl
      by_times none (some b) = refl
      by_times (some a) none = refl
      by_times (some a) (some b) = refl

  total_duration-completed :
      (sum : F) (jobs : List Job)
      → total_duration N time_of sum (completed_jobs jobs) ≡ all_spans sum jobs
  unfolding total_duration all_spans
  total_duration-completed sum [] = refl
  total_duration-completed sum (j ∷ jobs) = elim (Bool-cases (is_completed j.status)) [
    | inl c ↦
        rw (c, ← add_duration-plus sum j.result)
          (total_duration-completed (add_duration N time_of sum j.result) jobs)
    | inr c ↦ rw c (total_duration-completed sum jobs)
  ]

  average-per :
      (js : List Job)
      → average N time_of js
        ≡ per (total_duration N time_of (N.of_ℤ (pos 0)) js) (length js) (N.of_ℤ (pos 0))
  average-per [] = refl
  average-per (j ∷ js) = refl

  pub average-completed :
      (jobs : List Job) → average N time_of (completed_jobs jobs) ≡ average_of jobs
  average-completed jobs =
      average-per (completed_jobs jobs)
      ∙ rw (total_duration-completed (N.of_ℤ (pos 0)) jobs, length-completed_jobs jobs) refl

  pub success_rate-completed : (jobs : List Job) → success_rate N time_of jobs ≡ rate_of jobs
  success_rate-completed [] = unfold count_completed in refl
  success_rate-completed (j ∷ jobs) =
      ap (λ n. per (N.of_ℤ (pos n)) (length (j ∷ jobs)) (N.of_ℤ (pos 1)))
        (length-completed_jobs (j ∷ jobs))
