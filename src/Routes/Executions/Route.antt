-- ===== src/Routes/Executions/Route.antt =====
-- The handler of `GET /api/executions`: its limits, and its reply over memory.
use codehive.Http.{jobs, reply}
use codehive.Queue.Memory.{slice}
use codehive.Prelude.Exec.{ok}
use codehive.Queue.Service.{get_redis, get_job_count, get_jobs}
use codehive.Queue.Spec.{Spec}
use codehive.Prelude.Int.{zero-+ℤ-negsuc, negsuc, pos, ℤ}
use codehive.Queue.World.{World}
use codehive.Prelude.{
  List, ◌∙◌, ap, ◌-◌, drop, inr, take, inl, length, refl, arith, none, zero, min, ◌⊎◌, suc, ◌≤◌,
  ◌≡◌, some, ℕ, Option,
}
use codehive.Queue.Platform.{Platform}
use codehive.Routes.Executions.{get_executions, offset_of, limit_of}
use codehive.Routes.Executions.Laws.{jobs_of, get_jobs-memory, found_jobs-eq}
use codehive.Queue.Spec.Memory.{Implements, look_up-Implements}

-- The limit that is used is between 1 and 200, but for a negative number, which is used as it is.
pub limit_of-bounds :
    (n : Option ℤ)
    → ((l : ℕ) × (limit_of n ≡ pos l) × (1 ≤ l) × (l ≤ 200))
      ⊎ ((k : ℕ) × (n ≡ some (negsuc k)) × (limit_of n ≡ negsuc k))
unfolding limit_of
limit_of-bounds none = inl (50, refl, omega arith, omega arith)
limit_of-bounds (some (pos zero)) = inl (50, refl, omega arith, omega arith)
limit_of-bounds (some (pos (suc l))) = inl (min (suc l) 200, ground arith, omega arith, omega arith)
limit_of-bounds (some (negsuc k)) = inr (k, refl, ground arith)

slice-negative :
    {A : Type 0} (k : ℕ) (xs : List A) → slice (pos 0) (negsuc k) xs ≡ take (length xs - suc k) xs
unfolding slice
slice-negative k xs =
    let start : min 0 (length xs) ≡ 0 = omega arith in
    let span : length xs - suc k - 0 ≡ length xs - suc k = omega arith in rw (start, span)

pub limit_of-pos : (l : ℕ) → limit_of (some (pos (suc l))) ≡ pos (min (suc l) 200)
unfolding limit_of
limit_of-pos l = ground arith

pub offset_of-pos : (o : ℕ) → offset_of (some (pos o)) ≡ pos o
unfolding offset_of
offset_of-pos zero = refl
offset_of-pos (suc o) = refl

module _ {S V : Type 0} (P : Platform S V) {w : World S} {s : Spec} (h : Implements w s) where
  get_jobs_memory_state : (limit offset : ℤ) → (get_jobs P limit offset none w).1 ≡ get_redis w
  unfolding get_jobs get_redis
  get_jobs_memory_state limit offset = rw h.backend

  get_job_count-memory :
      (v : World S) → v ≡ get_redis w → (get_job_count P none v).0 ≡ ok (length s.pending)
  unfolding get_job_count
  get_job_count-memory v e = let h' = look_up-Implements h in rw e (rw (h'.backend, h'.order))

  -- Over memory and with a positive limit, the route answers 200 with the jobs of the waiting
  -- identifiers, from the offset and at most as many as the limit and 200, and with the number of all
  -- that wait. A job that was taken out of the order is not listed.
  pub get_executions-memory :
      (l o : ℕ)
      → (get_executions P (some (pos (suc l))) (some (pos o)) w).0
        ≡ ok (
            reply 200
              (jobs (jobs_of s.job (take (min (suc l) 200) (drop o s.pending))) (length s.pending)))
  unfolding get_executions
  get_executions-memory l o = simp (
    limit_of-pos,
    offset_of-pos,
    get_jobs-memory P h (min (suc l) 200) o,
    get_job_count-memory (get_jobs P (pos (min (suc l) 200)) (pos o) none w).1
        (get_jobs_memory_state _ _),
  )

  -- Over memory a limit of -(k + 1) lists all waiting jobs but the last k + 1, however many they are.
  pub get_jobs-memory_negative :
      (k : ℕ)
      → (get_jobs P (negsuc k) (pos 0) none w).0
        ≡ ok (jobs_of s.job (take (length s.pending - suc k) s.pending))
  unfolding get_jobs get_redis
  get_jobs-memory_negative k =
      rw (h.backend, h.order, zero-+ℤ-negsuc)
        (ap ok (
          found_jobs-eq (look_up-Implements h) (slice (pos 0) (negsuc k) s.pending)
          ∙ ap (jobs_of s.job) (slice-negative k s.pending)))
