-- ===== src/Routes/Stats/Laws.antt =====
-- What `GET /api/stats` of api/src/routes/executions.ts answers.
use codehive.Routes.Stats.Average.{success_rate-completed, average-completed, rate_of, average_of}
use codehive.Routes.Executions.Filtered.{page, get_jobs_lem}
use codehive.Queue.Service.{chosen, get_redis, get_jobs}
use codehive.Queue.Spec.Redis.Calls.{look_up-Stores}
use codehive.Queue.Spec.Memory.Preserve.{look_up-Implements}
use codehive.Routes.Executions.Counts.{
  get_job_count_state, get_job_count_lem, get_redis-Serves, waiting_count,
}
use codehive.Queue.Spec.Serves.{Serves}
use codehive.Queue.Spec.{Spec}
use codehive.Queue.World.{World}
use mathlib.Core.Path.{subst}
use codehive.Queue.Platform.{Platform}
use codehive.Prelude.Exec.{ok}
use codehive.Prelude.Int.{pos}
use codehive.Types.{is_completed, Job}
use codehive.Prelude.{
  inr, sym, inl, refl, false, str_eq, some, ◌∙◌, ap, ◌*◌, ◌≤◌, true, ℕ, [], ◌≡◌, arith,
  length-keep_le, length, ◌∷◌, List, String,
}
use codehive.Routes.Stats.{
  statistics, hundredths, Doubles, StatsReply, get_stats, stats_of, success_rate, completed_jobs,
}

-- between 0 and 1
abbrev pub IsRate : {F : Type 0} → Doubles F → F → Type 0
IsRate N x = (N.le (N.of_ℤ (pos 0)) x ≡ true) × (N.le x (N.of_ℤ (pos 1)) ≡ true)

success_rate-IsRate :
    {F : Type 0} (N : Doubles F) (time_of : String → F) (jobs : List Job)
    → IsRate N (success_rate N time_of jobs)
success_rate-IsRate N time_of [] = (N.of_ℤ-le 0 1 (omega arith), N.of_ℤ-le 1 1 (omega arith))
success_rate-IsRate N time_of (j ∷ jobs) =
    N.divide_bounds (length (completed_jobs (j ∷ jobs))) (length (j ∷ jobs))
      (length-keep_le (λ (i : Job). is_completed i.status) (j ∷ jobs)) (omega arith)

hundredths_exact :
    {F : Type 0} (N : Doubles F) (time_of : String → F) (a : ℕ)
    → a ≤ 1
    → hundredths N time_of (N.of_ℤ (pos a)) ≡ N.of_ℤ (pos a)
hundredths_exact N time_of a h =
    ap (λ x. N.divide (N.round x) (N.of_ℤ (pos 100))) (N.multiply_exact a h)
    ∙ ap (λ x. N.divide x (N.of_ℤ (pos 100))) (N.round_exact (a * 100) (omega (arith, h)))
    ∙ N.divide_exact a h

hundredths-le :
    {F : Type 0} (N : Doubles F) (time_of : String → F) (x y : F)
    → N.le x y ≡ true
    → N.le (hundredths N time_of x) (hundredths N time_of y) ≡ true
hundredths-le N time_of x y h = N.divide-le _ _ (N.round-le _ _ (N.multiply-le x y h))

hundredths-IsRate :
    {F : Type 0} (N : Doubles F) (time_of : String → F) (x : F)
    → IsRate N x
    → IsRate N (hundredths N time_of x)
hundredths-IsRate N time_of x (low, high) = (
  subst (λ z. N.le z (hundredths N time_of x) ≡ true) (hundredths_exact N time_of 0 (omega arith))
      (hundredths-le N time_of _ x low),
  subst (λ z. N.le (hundredths N time_of x) z ≡ true) (hundredths_exact N time_of 1 (omega arith))
      (hundredths-le N time_of x _ high),
)

-- a rate to two decimals
abbrev pub to_hundredths : {F : Type 0} → Doubles F → F → F
to_hundredths N x = N.divide (N.round (N.multiply x (N.of_ℤ (pos 100)))) (N.of_ℤ (pos 100))

chosen_again :
    {S V : Type 0} (P : Platform S V) {w : World S} {s : Spec}
    → Serves P w s
    → chosen (get_redis w) ≡ chosen w
chosen_again P (inl h) = (look_up-Implements h).backend ∙ sym h.backend
chosen_again P (inr h) = (look_up-Stores P h).backend ∙ sym h.backend

-- Over either backend, and with a time a day ago that is not empty, the route always answers with
-- statistics: how many jobs wait of the last day and of the last week, no active workers, and of the first
-- page of 500 jobs of the last day, as `getJobs` lists it, the rounded average of the spans and the rate
-- of the jobs that have completed. The average is the sum of the spans of the completed jobs with both
-- times, divided by the number of the completed ones, and 0 without any; the rate is that number divided
-- by the length of the page, and 1 on an empty page, to hundredths; it is between 0 and 1.
pub get_stats_lem :
    {S V F : Type 0} (P : Platform S V) (N : Doubles F) (time_of : String → F)
    (day_ago week_ago : String) {w : World S} {s : Spec}
    → Serves P w s
    → str_eq day_ago "" ≡ false
    → (r : StatsReply F) × ((get_stats N time_of P day_ago week_ago w).0 ≡ ok (statistics r))
      × (r.executions_24h ≡ waiting_count s (some day_ago))
      × (r.executions_7d ≡ waiting_count s (some week_ago))
      × (r.active_workers ≡ 0)
      × (r.avg_duration_ms
          ≡ N.round (average_of N time_of (page (chosen w) s 500 0 (some day_ago))))
      × (r.success_rate
          ≡ to_hundredths N (rate_of N time_of (page (chosen w) s 500 0 (some day_ago))))
      × IsRate N r.success_rate
unfolding get_stats stats_of
get_stats_lem P N time_of day_ago week_ago {w} {s} h given =
    let again = get_redis-Serves P h in
    let third = get_redis-Serves P again in
    let jobs = page (chosen w) s 500 0 (some day_ago) in
    let e : (get_jobs P (pos 500) (pos 0) (some day_ago) (get_redis (get_redis w))).0 ≡ ok jobs =
      get_jobs_lem P third 499 0 (some day_ago)
      ∙ ap (λ b. ok (page b s 500 0 (some day_ago))) (chosen_again P again ∙ chosen_again P h) in
    (
      stats_of N time_of (waiting_count s (some day_ago)) (waiting_count s (some week_ago)) jobs,
      rw
          (
            get_job_count_lem P h (some day_ago),
            get_job_count_state P h (some day_ago),
            get_job_count_lem P again (some week_ago),
            get_job_count_state P again (some week_ago),
            e,
          )
          refl,
      refl,
      refl,
      refl,
      ap N.round (average-completed N time_of jobs),
      ap (to_hundredths N) (success_rate-completed N time_of jobs),
      hundredths-IsRate N time_of _ (success_rate-IsRate N time_of jobs),
    )
