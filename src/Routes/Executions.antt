-- ===== src/Routes/Executions.antt =====
-- `GET /api/executions` of api/src/routes/executions.ts. `Number(text)` is an argument, `none` where it
-- is NaN; fractions and infinities are not modelled. The listing holds the jobs as they are at the call.
pub mod Laws
pub mod Times
pub mod Counts
pub mod Filtered
pub mod Listing
pub mod Route
mod Tests
use codehive.Queue.Service.{get_job_count, get_jobs}
use codehive.Http.{jobs, reply, guarded, Reply}
use codehive.Queue.World.{Action}
use codehive.Prelude.Int.{is_zero, pos, min_ℤ, ℤ}
use codehive.Queue.Platform.{Platform}
use codehive.Prelude.{none, if◌then◌else◌, some, Option}
use codehive.Prelude.Exec.{pure, ◌>>=◌}

-- `Number(text) || d`
unfoldable pub number_or : Option ℤ → ℤ → ℤ
number_or none d = d
number_or (some n) d = if is_zero n then d else n

-- `Math.min(Number(query.limit) || 50, 200)` and `Number(query.offset) || 0`
unfoldable pub limit_of : Option ℤ → ℤ
unfolding number_or
limit_of n = min_ℤ (number_or n (pos 50)) (pos 200)

unfoldable pub offset_of : Option ℤ → ℤ
unfolding number_or
offset_of n = number_or n (pos 0)

module _ {S V : Type 0} (P : Platform S V) where
  unfoldable pub get_executions : Option ℤ → Option ℤ → Action S Reply
  unfolding limit_of offset_of
  get_executions limit offset = guarded (do
    items ← get_jobs P (limit_of limit) (offset_of offset) none
    total ← get_job_count P none
    pure (reply 200 (jobs items total)))
