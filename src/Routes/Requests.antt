-- ===== src/Routes/Requests.antt =====
-- The requests that api/src/index.ts serves: the hook of api/src/plugins/auth.ts, behind it the rate limiter
-- of api/src/plugins/rate-limit.ts, and behind that the handler that the route is registered with. Which
-- route a URL leads to is Fastify's. What the handlers draw from the clock and from `randomUUID` are
-- arguments, and so is whether `@fastify/rate-limit` refuses the request: how it counts is its own.
pub mod Laws
mod Tests
use codehive.Prelude.{some, ℕ, String, Option, none, List, Bool}
use codehive.Prelude.Dict
use codehive.Prelude.Exec.{pure, ◌>>=◌, Result, ok}
use codehive.Prelude.Int.{ℤ}
use codehive.Server.Config.{LimitBody, limit_body, rate_limit_max}
use codehive.Errors.{Error}
use codehive.Types.{WorkerInfo}
use codehive.Http.{Reply, reply, failure}
use codehive.Auth.{Verdict, passed, unauthorized, authorize}
use codehive.Queue.World.{Action}
use codehive.Queue.Platform.{Platform}
use codehive.Executor.Run.{Submitted}
use codehive.Routes.Execute.{SubmitSchema, post_execute, get_status}
use codehive.Routes.WorkerApi.{WorkerSchemas, next_job, post_result, post_heartbeat}
use codehive.Routes.Executions.{get_executions}
use codehive.Routes.Stats.{Doubles, StatsAnswer, get_stats}
use codehive.Routes.Health.{get_health}
use codehive.Routes.Root.{root_page}
use codehive.Routes.Workers.{no_workers, list_workers, get_worker}

-- a request, with the parts of it that Fastify has parsed
pub data Request (B : Type 0) : Type 0 where
  root : Request B
  health : Request B
  execute : B → Request B
  status : String → Request B
  executions : Option ℤ → Option ℤ → Request B
  stats : Request B
  workers : Request B
  worker : String → Request B
  next : String → Request B
  result : String → B → Request B
  heartbeat : B → Request B

-- what is sent back: a reply, a page, or statistics; and the job that is started in the background
pub data Answer (F : Type 0) : Type 0 where
  replied : Reply → Answer F
  page : List (String × String) → Answer F
  started : Reply → Option Submitted → Answer F
  stated : StatsAnswer F → Answer F
  -- a code and the field `error`, of the hook
  denied : ℕ → String → Answer F
  -- what the rate limiter's `errorResponseBuilder` makes
  limited : LimitBody → Answer F

-- what the handlers draw, and what the rate limiter's plugin does with the request
pub record Draws : Type 0 where
  pub id : String
  pub now : String
  -- the time of the `updateJob` that a submission's run begins with
  pub marked_at : String
  pub uptime : ℕ
  pub day_ago : String
  pub week_ago : String
  -- the time to wait, as the plugin prints it, where it refuses the request
  pub refusal : Option String
  -- a number in a template string
  pub print : ℕ → String

abbrev pub mapped : {S A C : Type 0} → (A → C) → Action S A → Action S C
mapped f m = m >>= λ a. pure (f a)

module _ {S V B A F : Type 0} (P : Platform S V) (Z : SubmitSchema B) (W : WorkerSchemas B)
    (query : String → Result Error A) (N : Doubles F) (time_of : String → F) where
  unfoldable pub handle : Draws → Request B → Action S (Answer F)
  handle d root = pure (page root_page)
  handle d health = mapped replied (get_health P query d.uptime d.now)
  handle d (execute body) =
      mapped (λ x. started x.0 x.1) (post_execute P Z d.id d.now d.marked_at body)
  handle d (status id) = mapped replied (get_status P id)
  handle d (executions limit offset) = mapped replied (get_executions P limit offset)
  handle d stats = mapped stated (get_stats N time_of P d.day_ago d.week_ago)
  handle d workers = pure (replied (list_workers no_workers))
  handle d (worker id) = pure (replied (get_worker id no_workers))
  handle d (next id) = mapped replied (next_job P d.now id)
  handle d (result id body) = mapped replied (post_result P W d.now id body)
  handle d (heartbeat body) = mapped replied (post_heartbeat P W body)

  abbrev pub behind_limit : Option String → Draws → Request B → Action S (Answer F)
  behind_limit none d q = handle d q
  behind_limit (some after) d q = pure (limited (limit_body d.print rate_limit_max after))

  abbrev pub behind_hook : Verdict → Draws → Request B → Action S (Answer F)
  behind_hook passed d q = behind_limit d.refusal d q
  behind_hook unauthorized d q = pure (denied 401 "Unauthorized")

  -- the key of the environment, the URL of the request, and the header that it sends
  unfoldable pub respond :
      Option String → String → Option String → Draws → Request B → Action S (Answer F)
  unfolding handle limit_body
  respond env url key d q = behind_hook (authorize env url key) d q
