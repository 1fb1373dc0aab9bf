-- ===== src/Routes/Executions/Listing.antt =====
-- The reply of `GET /api/executions` over either backend.
use codehive.Http.{jobs, reply}
use codehive.Prelude.Exec.{ok}
use codehive.Prelude.Int.{pos, ℤ}
use codehive.Prelude.{
  arith, length, refl, none, inr, inl, Bool-cases, String, suc, Option, ℕ, some, min, ◌≡◌,
}
use codehive.Queue.Spec.{Spec}
use codehive.Queue.Platform.{Platform}
use codehive.Queue.World.{World}
use codehive.Queue.Service.{get_jobs, get_redis, chosen}
use codehive.Queue.Spec.Serves.{Serves}
use codehive.Routes.Executions.{get_executions}
use codehive.Routes.Executions.Filtered.{page, get_jobs_lem}
use codehive.Routes.Executions.Route.{limit_of-pos, offset_of-pos}
use codehive.Routes.Executions.Counts.{get_job_count_lem, get_redis-Serves}

pub get_jobs_state :
    {S V : Type 0} (P : Platform S V) (w : World S) (limit offset : ℤ) (since : Option String)
    → (get_jobs P limit offset since w).1 ≡ get_redis w
unfolding get_jobs get_redis
get_jobs_state P w limit offset since = elim (Bool-cases (chosen w)) [
  | inl r ↦ rw r refl
  | inr m ↦ rw m refl
]

module _ {S V : Type 0} (P : Platform S V) {w : World S} {s : Spec} where
  -- Over either backend, with a limit that is not zero and an offset, the route answers 200 with the page
  -- that `getJobs` lists for the limit, cut to 200, and with the number of all identifiers that wait.
  pub get_executions_lem :
      Serves P w s
      → (limit offset : ℕ)
      → (get_executions P (some (pos (suc limit))) (some (pos offset)) w).0
        ≡ ok (
            reply 200
              (jobs (page (chosen w) s (min (suc limit) 200) offset none) (length s.pending)))
  unfolding get_executions
  get_executions_lem h limit offset =
      let few : min (suc limit) 200 ≡ suc (min limit 199) = omega arith in
      let listed : (get_jobs P (pos (min (suc limit) 200)) (pos offset) none w).0
          ≡ ok (page (chosen w) s (min (suc limit) 200) offset none) =
        rw few (get_jobs_lem P h (min limit 199) offset none) in
      simp (
        limit_of-pos,
        offset_of-pos,
        listed,
        get_jobs_state P w (pos (min (suc limit) 200)) (pos offset) none,
        get_job_count_lem P (get_redis-Serves P h) none,
      )
