-- ===== src/Queue/Memory.antt =====
-- The class `MemoryQueue` of api/src/services/queue.ts. A method that reads or writes the objects behind
-- its references takes the heap.
use Prim.Native.String.{compare, ◌++◌ as str_append}
use text.Mathlib.Text.{is_lt}
use codehive.Prelude.{
  ℕ, suc, ◌-◌, min, String, Bool, not, Option, none, some, List, [], ◌∷◌, ◌++◌, str_eq,
  if◌then◌else◌, length, take, drop, keep, get_or, get_elem?,
}
use codehive.Prelude.Dict
use codehive.Prelude.Int.{ℤ, pos, negsuc, ◌+ℤ◌}
use codehive.Types.{ExecutionRequest, Status, ExecutionResult, Job}
use codehive.Errors.{plain}
use codehive.Prelude.Exec.{raise}
use codehive.Queue.World.{Ref, MemoryQueue, World, Action, modify}

-- `Partial<Job>`; `type` has one value, and `updatedAt` is overwritten by the call
pub record JobUpdates : Type 0 where
  pub id : Option String
  pub payload : Option ExecutionRequest
  pub status : Option Status
  pub worker_id : Option (Option String)
  pub created_at : Option String
  pub result : Option (Option ExecutionResult)

-- `Object.assign(job, updates, { updatedAt: now })`
unfoldable pub assign : JobUpdates → String → Job → Job
assign u now job = record job {
  id = get_or u.id job.id;
  payload = get_or u.payload job.payload;
  status = get_or u.status job.status;
  worker_id = get_or u.worker_id job.worker_id;
  created_at = get_or u.created_at job.created_at;
  updated_at = now;
  result = get_or u.result job.result;
}

-- `Job ${id} not found`
abbrev pub job_not_found : String → String
job_not_found id = str_append "Job " (str_append id " not found")

-- `a >= b` on texts
unfoldable pub text_ge : String → String → Bool
text_ge a b = not (is_lt (compare a b))

-- The index that `slice` makes of an argument for an array of `n` items.
abbrev pub slice_index : ℕ → ℤ → ℕ
slice_index n (pos i) = min i n
slice_index n (negsuc i) = n - suc i

-- `xs.slice(start, end)`
unfoldable pub slice {ℓ} : {A : Type ℓ} → ℤ → ℤ → List A → List A
slice a b xs =
    let n = length xs in let i = slice_index n a in take (slice_index n b - i) (drop i xs)

-- the truthiness of `filter?.since`
abbrev pub truthy : Option String → Option String
truthy none = none
truthy (some s) = if str_eq s "" then none else some s

-- `order.shift()`
abbrev pub tail_order : List String → List String
tail_order [] = []
tail_order (x ∷ xs) = xs

-- the object behind a reference or null
abbrev pub deref : List Job → Option Ref → Option Job
deref heap none = none
deref heap (some r) = get_elem? heap r

module _ {S : Type 0} where
  -- `this.jobs.get(id)`, with the object behind it
  unfoldable pub find : World S → String → Option Job
  find w id = deref w.heap (Dict.get id w.mem.jobs)

  -- `(this.jobs.get(id)?.createdAt ?? '') >= since`
  unfoldable pub is_since : World S → String → String → Bool
  unfolding find text_ge
  is_since w since id = elim (find w id) [
    | none ↦ text_ge "" since
    | some job ↦ text_ge job.created_at since
  ]

  unfoldable pub since_order : World S → Option String → List String
  unfolding is_since
  since_order w since = elim (truthy since) [
    | none ↦ w.mem.order
    | some t ↦ keep (is_since w t) w.mem.order
  ]

  -- `.map(id => this.jobs.get(id)!).filter(Boolean)`
  unfoldable pub found_jobs : World S → List String → List Job
  unfolding find
  found_jobs w [] = []
  found_jobs w (id ∷ ids) =
      let rest = found_jobs w ids in elim (find w id) [ none ↦ rest | some job ↦ job ∷ rest ]

unfoldable pub mem_enqueue : Ref → String → MemoryQueue → MemoryQueue
mem_enqueue r id q = record { jobs = Dict.put id r q.jobs; order = q.order ++ id ∷ [] }

-- `if (!id) return null` holds of an empty text too
abbrev pub first_job : List String → Dict.Dict Ref → Option Ref
first_job [] jobs = none
first_job (id ∷ rest) jobs = if str_eq id "" then none else Dict.get id jobs

unfoldable pub mem_dequeue : MemoryQueue → Option Ref × MemoryQueue
mem_dequeue q = (first_job q.order q.jobs, record q { order = tail_order q.order })

unfoldable pub mem_get_job : String → MemoryQueue → Option Ref
mem_get_job id q = Dict.get id q.jobs

module _ {S : Type 0} where
  unfoldable pub mem_get_jobs : ℤ → ℤ → Option String → World S → List Job
  unfolding since_order found_jobs slice
  mem_get_jobs limit offset since w =
      found_jobs w (slice offset (offset +ℤ limit) (since_order w since))

  unfoldable pub mem_get_job_count : Option String → World S → ℕ
  unfolding since_order
  mem_get_job_count since w = length (since_order w since)

unfoldable pub mem_clear : MemoryQueue → MemoryQueue
mem_clear q = record { jobs = []; order = [] }

module _ {S : Type 0} where
  -- `if (!job) throw …; Object.assign(…)`
  abbrev pub update_object : String → JobUpdates → String → Option Ref → Action S (Unit {0})
  update_object id updates now none = raise (plain (job_not_found id))
  update_object id updates now (some r) = modify r (assign updates now)

  unfoldable pub mem_update_job : String → JobUpdates → String → Action S (Unit {0})
  unfolding modify
  mem_update_job id updates now w = update_object id updates now (Dict.get id w.mem.jobs) w
