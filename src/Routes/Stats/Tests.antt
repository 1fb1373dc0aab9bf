-- ===== src/Routes/Stats/Tests.antt =====
-- `GET /api/stats` at a concrete server, with an arithmetic of whole numbers in which a quotient below one
-- is zero.
use codehive.Routes.Stats.Average.{rate_of, average_of}
use codehive.Routes.Executions.Counts.{waiting_count}
use codehive.Prelude.Exec.{ok}
use codehive.Executor.Tests.{over_memory, job_a, stored, over_memory-Implements}
use codehive.Queue.Sample.{sample}
use codehive.Prelude.{
  inl, some, ◌<◌, true, ◌≤◌, arith, leb, ◌*◌, refl, ltb, [], if◌then◌else◌, ◌≡◌, ◌∷◌, ◌-◌, ◌+◌, ℕ,
}
use codehive.Prelude.Int.{negsuc, pos, ℤ}
use codehive.Prelude.Dict
use codehive.Prelude.Int.{◌+ℤ◌}
use codehive.Queue.Spec.{call}
use codehive.Queue.Service.{get_job_count, get_jobs, enqueue}
use codehive.Routes.Stats.{Doubles, StatsReply, get_stats, statistics, stats_of}
use codehive.Routes.Executions.Filtered.{page}
use codehive.Queue.Service.{chosen}
use codehive.Routes.Stats.Laws.{to_hundredths, IsRate, get_stats_lem}

abbrev whole_of : ℤ → ℕ
whole_of (pos n) = n
whole_of (negsuc n) = 0

abbrev cut : ℕ → ℕ → ℕ
cut x y = if ltb x y then 0 else 1

pub leb_of_le : (a b : ℕ) → a ≤ b → leb a b ≡ true
leb_of_le a b h = ground (arith, h)

pub cut_bounds : (a b : ℕ) → a ≤ b → 0 < b → (leb 0 (cut a b) ≡ true) × (leb (cut a b) 1 ≡ true)
cut_bounds a b h k = ground arith

pub times_le : (x y : ℕ) → leb x y ≡ true → leb (x * 100) (y * 100) ≡ true
times_le x y h = ground (arith, h)

pub cut_le : (x y : ℕ) → leb x y ≡ true → leb (cut x 100) (cut y 100) ≡ true
cut_le x y h = ground (arith, h)

pub cut_exact : (a : ℕ) → a ≤ 1 → cut (a * 100) 100 ≡ a
cut_exact a h = ground (arith, h)

abbrev pub wholes : Doubles ℕ
wholes = record {
  of_ℤ = whole_of;
  add = λ x y. x + y;
  subtract = λ x y. x - y;
  divide = cut;
  multiply = λ x y. x * y;
  round = λ x. x;
  le = leb;
  of_ℤ-le = leb_of_le;
  divide_bounds = cut_bounds;
  multiply-le = times_le;
  round-le = λ x y h. h;
  divide-le = cut_le;
  multiply_exact = λ a h. refl;
  round_exact = λ a h. refl;
  divide_exact = cut_exact;
}

get_stats_lem_example :
    (r : StatsReply ℕ) × ((get_stats wholes (λ t. 0) sample "a" "a" over_memory).0
      ≡ ok (statistics r))
    × (r.executions_24h ≡ waiting_count stored (some "a"))
    × (r.executions_7d ≡ waiting_count stored (some "a"))
    × (r.active_workers ≡ 0)
    × (r.avg_duration_ms
        ≡ wholes.round
            (average_of wholes (λ t. 0) (page (chosen over_memory) stored 500 0 (some "a"))))
    × (r.success_rate
        ≡ to_hundredths wholes
            (rate_of wholes (λ t. 0) (page (chosen over_memory) stored 500 0 (some "a"))))
    × IsRate wholes r.success_rate
get_stats_lem_example =
    get_stats_lem sample wholes (λ t. 0) "a" "a" (inl over_memory-Implements) refl

abbrev one_waits : StatsReply ℕ
one_waits = stats_of wholes (λ t. 0) 1 1 (job_a ∷ [])

stats_run : (get_stats wholes (λ t. 0) sample "a" "a" over_memory).0 ≡ ok (statistics one_waits)
unfolding get_stats stats_of get_job_count call enqueue get_jobs Dict.get ◌+ℤ◌ Dict.put
stats_run = refl
