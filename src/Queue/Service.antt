-- ===== src/Queue/Service.antt =====
-- The exported functions of api/src/services/queue.ts. Identifiers and times that the source draws
-- (`randomUUID()`, `new Date().toISOString()`) are arguments.
use codehive.Prelude.Int.{◌+ℤ◌, minus_one, pos, ℤ}
use Prim.Native.String.{◌++◌ as str_append}
use codehive.Prelude.{
  ◌∷◌, [], length, ℕ, List, String, Bool, true, false, not, ◌&&◌, Option, none, some, str_eq,
  if◌then◌else◌,
}
use codehive.Prelude.Exec.{Result, ok, throw, pure, raise, gets, ◌>>=◌, ◌>>◌}
use codehive.Types.{ExecutionRequest, ExecutionResult, Job, queued, execute}
use codehive.Errors.{Error, plain}
use codehive.Queue.Platform.{Platform}
use codehive.Queue.World.{Ref, MemoryQueue, World, Action, new_job, load, modify}
use codehive.Queue.Memory.{
  slice, mem_get_job_count, mem_get_jobs, text_ge, JobUpdates, assign, job_not_found, truthy,
  mem_enqueue, mem_dequeue, mem_get_job, mem_update_job,
}

abbrev pub queue_key : String
queue_key = "codehive:queue"

abbrev pub job_key : String → String
job_key id = str_append "codehive:job:" id

-- `process.env.REDIS_HOST && process.env.REDIS_HOST !== 'placeholder'`
abbrev pub names_redis : Option String → Bool
names_redis none = false
names_redis (some h) = not (str_eq h "") && not (str_eq h "placeholder")

-- the job that `enqueue` makes
abbrev pub fresh_job : String → String → ExecutionRequest → Job
fresh_job id now request = record {
  id = id;
  type = execute;
  payload = request;
  status = queued;
  worker_id = none;
  created_at = now;
  updated_at = now;
  result = none;
}

module _ {S : Type 0} where
  -- `!redis && !redisAttempted`
  abbrev pub is_first : World S → Bool
  is_first w = not w.redis && not w.redis_attempted

  -- whether there is a client after the first call
  abbrev pub chosen : World S → Bool
  chosen w = if is_first w then names_redis w.redis_host else w.redis

  unfoldable pub get_redis : World S → World S
  get_redis w = record w {
    redis = chosen w;
    redis_attempted = if is_first w then true else w.redis_attempted;
  }

  unfoldable pub use_redis : Action S Bool
  unfolding get_redis
  use_redis w = let w' = get_redis w in (ok w'.redis, w')

  -- a change of the Redis server, and of the memory queue
  abbrev pub on_server : (S → S) → Action S (Unit {0})
  on_server f w = (ok tt, record w { server = f w.server })

  abbrev pub on_memory : (MemoryQueue → MemoryQueue) → Action S (Unit {0})
  on_memory f w = (ok tt, record w { mem = f w.mem })

-- `!(filter?.since && job.createdAt < filter.since)`
abbrev pub is_recent : Option String → Job → Bool
is_recent since job = elim (truthy since) [ none ↦ true | some t ↦ text_ge job.created_at t ]

module _ {S V : Type 0} (P : Platform S V) where
  -- `JSON.parse(data)`: the parsed job is a new object
  abbrev pub parsed : Result Error Job → Action S (Option Ref)
  parsed (ok job) = do r ← new_job job; pure (some r)
  parsed (throw e) = raise e

  -- the truthiness of a stored text
  abbrev pub truthy_text : Option V → Option V
  truthy_text none = none
  truthy_text (some text) = if P.blank text then none else some text

  -- `data ? JSON.parse(data) as Job : null`
  abbrev from_text : Option V → Action S (Option Ref)
  from_text none = pure none
  from_text (some text) = parsed (P.parse text)

  abbrev pub from_data : Option V → Action S (Option Ref)
  from_data reply = from_text (truthy_text reply)

  -- one round of a loop over stored jobs: `JSON.parse` may throw, and `continue` skips an old job
  abbrev pub add_job :
      Option String → Result Error Job → Result Error (List Job) → Result Error (List Job)
  add_job since (throw e) rest = throw e
  add_job since (ok job) (throw e) = throw e
  add_job since (ok job) (ok jobs) = if is_recent since job then ok (job ∷ jobs) else ok jobs

  -- what a call of the server answers, and the state that it leaves
  abbrev pub rpop_queue : Action S (Option String)
  rpop_queue w =
      let (id, server) = P.rpop queue_key w.server in (ok id, record w { server = server })

  unfoldable pub enqueue : String → String → ExecutionRequest → Action S Ref
  unfolding use_redis new_job mem_enqueue
  enqueue id now request = do
    let job = fresh_job id now request
    r ← new_job job
    b ← use_redis
    if b
        then on_server (λ s. P.lpush queue_key id (P.set (job_key id) (P.stringify job) s))
        else on_memory (mem_enqueue r id)
    pure r

  -- `if (!id) return null`, and the read of the job's key
  abbrev popped_id : Option String → Action S (Option Ref)
  popped_id none w = (ok none, w)
  popped_id (some id) w = from_data (P.get (job_key id) w.server) w

  abbrev pub popped : Option String → Action S (Option Ref)
  popped id = popped_id (truthy id)

  abbrev pub dequeue_memory : Action S (Option Ref)
  dequeue_memory w = let (r, q) = mem_dequeue w.mem in (ok r, record w { mem = q })

  unfoldable pub dequeue : Action S (Option Ref)
  unfolding use_redis new_job mem_dequeue
  dequeue = do b ← use_redis; if b then (do id ← rpop_queue; popped id) else dequeue_memory

  unfoldable pub get_job : String → Action S (Option Ref)
  unfolding use_redis new_job mem_get_job
  get_job id = do
    b ← use_redis
    if b then (λ w. from_data (P.get (job_key id) w.server) w) else gets (λ w. mem_get_job id w.mem)

  -- `if (!job) throw new Error(…)`
  abbrev pub present : String → Option Ref → Action S Ref
  present id none = raise (plain (job_not_found id))
  present id (some r) = pure r

  -- `r.set(…, JSON.stringify(job))` for the object behind a reference
  abbrev pub store_value : String → Option Job → Action S (Unit {0})
  store_value id none = pure tt
  store_value id (some job) = on_server (P.set (job_key id) (P.stringify job))

  abbrev pub store_job : String → Ref → Action S (Unit {0})
  store_job id r w = store_value id (load w r) w

  -- `updateJob` over Redis, behind its `getJob`
  abbrev pub update_found : String → String → JobUpdates → Option Ref → Action S (Unit {0})
  update_found now id updates found = do
    r ← present id found
    modify r (assign updates now)
    store_job id r

  unfoldable pub update_job : String → String → JobUpdates → Action S (Unit {0})
  unfolding use_redis modify mem_update_job assign
  update_job now id updates = do
    b ← use_redis
    if b
        then (do found ← get_job id; update_found now id updates found)
        else mem_update_job id updates now

  unfoldable pub update_result : String → String → ExecutionResult → Action S (Unit {0})
  unfolding use_redis modify
  update_result now id result = do
    found ← get_job id
    r ← present id found
    modify r (λ job. record job { result = some result; status = result.status; updated_at = now })
    b ← use_redis
    if b then store_job id r else pure tt

  abbrev pub collect_one :
      Option String → Option V → Result Error (List Job) → Result Error (List Job)
  collect_one since none rest = rest
  collect_one since (some text) rest = add_job since (P.parse text) rest

  -- the jobs behind the queued identifiers, as the loop over the pipeline's results collects them
  unfoldable pub collected : Option String → S → List String → Result Error (List Job)
  collected since server [] = ok []
  collected since server (id ∷ ids) =
      let rest = collected since server ids in
      collect_one since (truthy_text (P.get (job_key id) server)) rest

  -- `jobs.slice(0, limit)` of what was collected
  abbrev sliced : ℤ → Result Error (List Job) → Result Error (List Job)
  sliced limit (throw e) = throw e
  sliced limit (ok jobs) = ok (slice (pos 0) limit jobs)

  unfoldable pub get_jobs : ℤ → ℤ → Option String → Action S (List Job)
  unfolding use_redis mem_get_jobs collected slice
  get_jobs limit offset since = do
    b ← use_redis
    if b
        then (λ w. (
          sliced limit (
              collected since w.server
                (P.lrange queue_key offset (offset +ℤ limit +ℤ minus_one) w.server)),
          w,
        ))
        else gets (mem_get_jobs limit offset since)

  -- `count++` for every recent job
  abbrev counted : Result Error (List Job) → Result Error ℕ
  counted (throw e) = throw e
  counted (ok jobs) = ok (length jobs)

  unfoldable pub get_job_count : Option String → Action S ℕ
  unfolding use_redis mem_get_job_count collected
  get_job_count since = do
    b ← use_redis
    if b
        then elim (truthy since) [
          | none ↦ gets (λ w. P.llen queue_key w.server)
          | some t ↦ λ w. (
            counted (collected (some t) w.server (P.lrange queue_key (pos 0) minus_one w.server)),
            w,
          )
        ]
        else gets (mem_get_job_count since)

  -- a PING that is rejected makes `false`
  unfoldable pub health_check : Action S Bool
  unfolding use_redis
  health_check = do b ← use_redis; if b then gets (λ w. P.ping w.server) else pure true
