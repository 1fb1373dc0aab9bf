-- ===== src/Routes/Executions/Tests.antt =====
-- The theorems on `GET /api/executions` and what it counts, at concrete inputs.
use codehive.Prelude.Int.{pos}
use codehive.Queue.Service.{get_jobs}
use codehive.Routes.Executions.{get_executions}
use codehive.Routes.Executions.Filtered.{page, get_jobs_lem}
use codehive.Routes.Executions.Listing.{get_executions_lem}
use codehive.Queue.Service.{chosen}
use codehive.Http.{jobs, reply}
use codehive.Prelude.{inl, min, length, some, inr, none, ◌≡◌}
use codehive.Prelude.Exec.{ok}
use codehive.Queue.Sample.{sample}
use codehive.Executor.Tests.{
  over_memory, over_memory-Implements, over_redis, over_redis-Stores, stored,
}

get_jobs_lem_example :
    (get_jobs sample (pos 5) (pos 0) (some "t0") over_redis).0
    ≡ ok (page (chosen over_redis) stored 5 0 (some "t0"))
get_jobs_lem_example = get_jobs_lem sample (inr over_redis-Stores) 4 0 (some "t0")

get_executions_lem_example :
    (get_executions sample (some (pos 10)) (some (pos 0)) over_memory).0
    ≡ ok (
        reply 200
          (jobs (page (chosen over_memory) stored (min 10 200) 0 none) (length stored.pending)))
get_executions_lem_example = get_executions_lem sample (inl over_memory-Implements) 9 0
