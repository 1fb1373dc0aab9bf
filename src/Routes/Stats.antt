-- ===== src/Routes/Stats.antt =====
-- `GET /api/stats` of api/src/routes/executions.ts. The doubles that it computes with are a record of
-- operations, with what IEEE arithmetic says of them here; `Date.parse` is an argument.
pub mod Laws
pub mod Average
pub mod Tests
use codehive.Queue.Memory.{truthy}
use codehive.Prelude.Exec.{pure, try_catch}
use codehive.Prelude.{
  [], none, ◌*◌, true, Bool, some, ◌≡◌, length, ◌<◌, ◌∷◌, Option, keep, ◌≤◌, String, List, ℕ,
}
use codehive.Prelude.Int.{pos, ℤ}
use codehive.Prelude.Exec.{◌>>=◌}
use codehive.Queue.Platform.{Platform}
use codehive.Queue.World.{Action}
use codehive.Queue.Service.{get_jobs, get_job_count}
use codehive.Types.{ExecutionResult, Job, is_completed}
use codehive.Http.{Reply, error_reply}
use codehive.Errors.{Error}

pub record Doubles (F : Type 0) : Type 0 where
  pub of_ℤ : ℤ → F
  pub add : F → F → F
  pub subtract : F → F → F
  pub divide : F → F → F
  pub multiply : F → F → F
  -- `Math.round`
  pub round : F → F
  -- `<=`
  pub le : F → F → Bool
  pub of_ℤ-le : (a b : ℕ) → a ≤ b → le (of_ℤ (pos a)) (of_ℤ (pos b)) ≡ true
  -- the quotient of a part and a whole is between 0 and 1
  pub divide_bounds :
      (a b : ℕ)
      → a ≤ b
      → 0 < b
      → (le (of_ℤ (pos 0)) (divide (of_ℤ (pos a)) (of_ℤ (pos b))) ≡ true)
        × (le (divide (of_ℤ (pos a)) (of_ℤ (pos b))) (of_ℤ (pos 1)) ≡ true)
  -- multiplication by 100, `Math.round` and division by 100 keep the order, and are exact at 0 and at 100
  pub multiply-le :
      (x y : F)
      → le x y ≡ true
      → le (multiply x (of_ℤ (pos 100))) (multiply y (of_ℤ (pos 100))) ≡ true
  pub round-le : (x y : F) → le x y ≡ true → le (round x) (round y) ≡ true
  pub divide-le :
      (x y : F) → le x y ≡ true → le (divide x (of_ℤ (pos 100))) (divide y (of_ℤ (pos 100))) ≡ true
  pub multiply_exact :
      (a : ℕ) → a ≤ 1 → multiply (of_ℤ (pos a)) (of_ℤ (pos 100)) ≡ of_ℤ (pos (a * 100))
  pub round_exact : (a : ℕ) → a ≤ 100 → round (of_ℤ (pos a)) ≡ of_ℤ (pos a)
  pub divide_exact : (a : ℕ) → a ≤ 1 → divide (of_ℤ (pos (a * 100))) (of_ℤ (pos 100)) ≡ of_ℤ (pos a)

-- the body of the reply
pub record StatsReply (F : Type 0) : Type 0 where
  pub executions_24h : ℕ
  pub executions_7d : ℕ
  pub active_workers : ℕ
  pub avg_duration_ms : F
  pub success_rate : F

-- the answer: the statistics with 200, or what `sendError` sends
pub data StatsAnswer (F : Type 0) : Type 0 where
  statistics : StatsReply F → StatsAnswer F
  refused : Reply → StatsAnswer F

abbrev pub completed_jobs : List Job → List Job
completed_jobs jobs = keep (λ j. is_completed j.status) jobs

module _ {F : Type 0} (N : Doubles F) (time_of : String → F) where
  -- `sum + (finished - started)`, where a job has both times
  abbrev pub add_span : F → Option String → Option String → F
  add_span sum (some started) (some finished) =
      N.add sum (N.subtract (time_of finished) (time_of started))
  add_span sum _ _ = sum

  abbrev pub add_duration : F → Option ExecutionResult → F
  add_duration sum none = sum
  add_duration sum (some r) = add_span sum (truthy r.started_at) (truthy r.finished_at)

  -- `reduce`
  unfoldable pub total_duration : F → List Job → F
  total_duration sum [] = sum
  total_duration sum (j ∷ jobs) = total_duration (add_duration sum j.result) jobs

  abbrev pub average : List Job → F
  average [] = N.of_ℤ (pos 0)
  average (j ∷ jobs) =
      N.divide (total_duration (N.of_ℤ (pos 0)) (j ∷ jobs)) (N.of_ℤ (pos (length (j ∷ jobs))))

  abbrev pub success_rate : List Job → F
  success_rate [] = N.of_ℤ (pos 1)
  success_rate (j ∷ jobs) =
      N.divide (N.of_ℤ (pos (length (completed_jobs (j ∷ jobs)))))
        (N.of_ℤ (pos (length (j ∷ jobs))))

  -- `Math.round(x * 100) / 100`
  abbrev pub hundredths : F → F
  hundredths x = N.divide (N.round (N.multiply x (N.of_ℤ (pos 100)))) (N.of_ℤ (pos 100))

  unfoldable pub stats_of : ℕ → ℕ → List Job → StatsReply F
  unfolding total_duration
  stats_of day week jobs = record {
    executions_24h = day;
    executions_7d = week;
    active_workers = 0;
    avg_duration_ms = N.round (average (completed_jobs jobs));
    success_rate = hundredths (success_rate jobs);
  }

  -- the handler, with the texts of the times a day and a week ago
  unfoldable pub get_stats :
      {S V : Type 0} → Platform S V → String → String → Action S (StatsAnswer F)
  unfolding stats_of
  get_stats P day_ago week_ago =
      try_catch
        (do
          day ← get_job_count P (some day_ago)
          week ← get_job_count P (some week_ago)
          jobs ← get_jobs P (pos 500) (pos 0) (some day_ago)
          pure (statistics (stats_of day week jobs)))
        (λ e. pure (refused (error_reply e)))
