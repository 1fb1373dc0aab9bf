-- ===== src/Routes/Executions/Laws.antt =====
-- What the listing shows: the jobs that still wait, by the backend's own order.
use mathlib.Core.Option
use codehive.Errors.{Error}
use codehive.Prelude.Exec.{Result, ok}
use codehive.Prelude.Int.{last_index, pos-+ℤ-pos, pos}
use codehive.Queue.Platform.{Platform}
use codehive.Queue.Spec.{Spec}
use codehive.Types.{Job}
use codehive.Queue.World.{World}
use codehive.Queue.Service.{add_job, truthy_text, collect_one, collected, get_redis, get_jobs}
use codehive.Queue.Memory.{slice, found_jobs}
use codehive.Prelude.{
  length-take_le, ◌∙◌, zero, ap, ◌≤◌, ◌-◌, length, min, reverse, drop, refl, take, [], some, suc,
  none, ◌+◌, arith, ◌≡◌, ◌∷◌, List, ℕ, Option, String,
}
use codehive.Queue.Spec.Memory.{look_up-Implements, Implements}
use codehive.Queue.Spec.Redis.{Stores}

-- the jobs behind a list of identifiers, those that have one
abbrev pub jobs_of : (String → Option Job) → List String → List Job
jobs_of job [] = []
jobs_of job (id ∷ ids) =
    let rest = jobs_of job ids in elim (job id) [ none ↦ rest | some j ↦ j ∷ rest ]

take-min : {A : Type 0} (j b : ℕ) (xs : List A) → j ≡ min b (length xs) → take j xs ≡ take b xs
take-min zero zero xs e = refl
take-min zero (suc b) [] e = refl
take-min zero (suc b) (x ∷ xs) e = absurd (omega arith)
take-min (suc j) b [] e = absurd (omega arith)
take-min (suc j) zero (x ∷ xs) e = absurd (omega arith)
take-min (suc j) (suc b) (x ∷ xs) e = ap (λ l. x ∷ l) (take-min j b xs (omega arith))

slice_eq :
    {A : Type 0} (i j a b : ℕ) (xs : List A)
    → i ≡ min a (length xs)
    → j ≡ min (a + b) (length xs) - min a (length xs)
    → take j (drop i xs) ≡ take b (drop a xs)
slice_eq (suc i) j a b [] e f = absurd (omega arith)
slice_eq zero (suc j) a b [] e f = absurd (omega arith)
slice_eq zero zero zero zero [] e f = refl
slice_eq zero zero zero (suc b) [] e f = refl
slice_eq zero zero (suc a) zero [] e f = refl
slice_eq zero zero (suc a) (suc b) [] e f = refl
slice_eq zero j zero b (x ∷ xs) e f = take-min j b (x ∷ xs) (omega arith)
slice_eq (suc i) j zero b (x ∷ xs) e f = absurd (omega arith)
slice_eq zero j (suc a) b (x ∷ xs) e f = absurd (omega arith)
slice_eq (suc i) j (suc a) b (x ∷ xs) e f = slice_eq i j a b xs (omega arith) (omega arith)

pub slice-pos :
    {A : Type 0} (a b : ℕ) (xs : List A) → slice (pos a) (pos (a + b)) xs ≡ take b (drop a xs)
unfolding slice
slice-pos a b xs = slice_eq (min a (length xs)) _ a b xs refl refl

take_all : {A : Type 0} (n : ℕ) (xs : List A) → length xs ≤ n → take n xs ≡ xs
take_all zero [] h = refl
take_all (suc n) [] h = refl
take_all zero (x ∷ xs) h = absurd (omega arith)
take_all (suc n) (x ∷ xs) h = ap (λ l. x ∷ l) (take_all n xs (omega arith))

pub found_jobs-eq :
    {S : Type 0} {w : World S} {s : Spec} (h : Implements w s) (ids : List String)
    → found_jobs w ids ≡ jobs_of s.job ids
unfolding found_jobs
found_jobs-eq h [] = refl
found_jobs-eq {w} {s} h (id ∷ ids) = ground (arith, h.jobs id, found_jobs-eq h ids)

length-jobs_of_le :
    (job : String → Option Job) (ids : List String) → length (jobs_of job ids) ≤ length ids
length-jobs_of_le job [] = omega arith
length-jobs_of_le job (id ∷ ids) = ground (arith, length-jobs_of_le job ids)

pub length-jobs_of-take_le :
    (job : String → Option Job) (limit : ℕ) (ids : List String)
    → length (jobs_of job (take (suc limit) ids)) ≤ suc limit
length-jobs_of-take_le job limit ids =
    omega (arith, length-jobs_of_le job (take (suc limit) ids), length-take_le (suc limit) ids)

pub slice-few :
    {A : Type 0} (limit : ℕ) (few : List A)
    → length few ≤ suc limit
    → slice (pos 0) (pos (suc limit)) few ≡ few
unfolding slice
slice-few limit few h =
    slice_eq (min 0 (length few)) _ 0 (suc limit) few refl (omega arith)
    ∙ take_all (suc limit) few h

-- Without a filter and over memory, `getJobs` lists the jobs of the waiting identifiers, the one that
-- waited longest first, from the offset and at most as many as the limit.
pub get_jobs-memory :
    {S V : Type 0} (P : Platform S V) {w : World S} {s : Spec}
    → Implements w s
    → (limit offset : ℕ)
    → (get_jobs P (pos limit) (pos offset) none w).0
      ≡ ok (jobs_of s.job (take limit (drop offset s.pending)))
unfolding get_jobs get_redis
get_jobs-memory P {w} {s} h limit offset =
    rw (h.backend, h.order, pos-+ℤ-pos, slice-pos offset limit s.pending)
      (ap ok (
        found_jobs-eq (unfold get_redis in look_up-Implements h)
          (take limit (drop offset s.pending))))

module _ {S V : Type 0} (P : Platform S V) {w : World S} {s : Spec} (h : Stores P w s) where
  stored_text :
      (o : Option Job) (rest : Result Error (List Job))
      → collect_one P none (truthy_text P (Option.map P.stringify o)) rest
        ≡ (elim o [ none ↦ rest | some j ↦ add_job P none (ok j) rest ])
  stored_text none rest = refl
  stored_text (some j) rest = rw (P.stringify-ne, P.parse-stringify)

  pub collected-eq : (ids : List String) → collected P none w.server ids ≡ ok (jobs_of s.job ids)
  unfolding collected
  collected-eq [] = refl
  collected-eq (id ∷ ids) = rw (h.jobs id, collected-eq ids, stored_text) (ground arith)

  -- the last `slice` drops nothing
  first_jobs :
      (limit : ℕ) (ids : List String)
      → slice (pos 0) (pos (suc limit)) (jobs_of s.job (take (suc limit) ids))
        ≡ jobs_of s.job (take (suc limit) ids)
  first_jobs limit ids = slice-few limit _ (length-jobs_of-take_le s.job limit ids)

  -- Without a filter and over Redis, `getJobs` lists the jobs of the waiting identifiers, the latest
  -- first, from the offset and at most as many as a limit that is not zero.
  pub get_jobs-redis :
      (limit offset : ℕ)
      → (get_jobs P (pos (suc limit)) (pos offset) none w).0
        ≡ ok (jobs_of s.job (take (suc limit) (drop offset (reverse s.pending))))
  unfolding get_jobs get_redis
  get_jobs-redis limit offset =
      let span : offset + limit + 1 - offset ≡ suc limit = omega arith in
      rw (h.backend, last_index, P.lrange-pos, h.order, collected-eq, span)
        (ap ok (first_jobs limit (drop offset (reverse s.pending))))
