-- ===== src/Server.antt =====
-- api/src/index.ts: the order in which the server is put together, the files of the dashboard, and the
-- shutdown; with `closePool` of api/src/services/db.ts and `closeRedis` of api/src/services/queue.ts. What
-- Fastify, node-postgres and ioredis answer is an argument.
pub mod Laws
pub mod Config
mod Tests
use codehive.Prelude.{
  ◌&&◌, ◌++◌, str_eq, none, ◌∷◌, [], some, List, String, false, if◌then◌else◌, Bool, ℕ, Option,
}
use codehive.Observer.{Observer, step, destroy}
use codehive.Errors.{Error}
use codehive.Prelude.Exec.{Exec, Result, ok, throw, ◌>>=◌, ◌>>◌}

-- what is registered with Fastify
pub data Part : Type 0 where
  cors auth rate_limit web_socket : Part
  root_routes health_routes execute_routes executions_routes worker_routes worker_api_routes : Part
  static_files ws_observer : Part

-- `process.env.NODE_ENV === 'production'`, and whether the files of the dashboard are there
abbrev pub static_part : Option String → Bool → List Part
static_part none there = []
static_part (some env) there = if str_eq env "production" && there then static_files ∷ [] else []

unfoldable pub parts : Option String → Bool → List Part
parts node_env dist_there =
    cors
      ∷ auth
      ∷ rate_limit
      ∷ web_socket
      ∷ root_routes
      ∷ health_routes
      ∷ execute_routes
      ∷ executions_routes
      ∷ worker_routes
      ∷ worker_api_routes
      ∷ static_part node_env dist_there
    ++ ws_observer ∷ []

-- `app.listen`: the server runs, or the process exits with code 1
pub data Started : Type 0 where
  serving : Started
  exited : ℕ → Started

unfoldable pub start : Result Error (Unit {0}) → Started
start (ok u) = serving
start (throw e) = exited 1

-- `GET /*`: the page, whatever path is asked for; `none` where there is no `index.html`
unfoldable pub serve_static : Option String → String → String
serve_static (some page) path = page
serve_static none path = "CodeHive Dashboard — run <code>npm run build</code> in dashboard/"

-- what the process holds: the observer, and whether the app, a pool and a Redis client are open
pub record Process : Type 0 where
  pub observer : Observer
  pub app_open : Bool
  pub pool_open : Bool
  pub redis_open : Bool

-- what `app.close`, `pool.end` and `redis.quit` answer
pub record Closers : Type 0 where
  pub close_app : Result Error (Unit {0})
  pub end_pool : Result Error (Unit {0})
  pub quit_redis : Result Error (Unit {0})

abbrev pub Act : Type 0
Act = Exec Process Error (Unit {0})

-- an answer that, where it is no error, leaves the process with something closed
abbrev pub closing : Result Error (Unit {0}) → (Process → Process) → Act
closing (ok u) f p = (ok u, f p)
closing (throw e) f p = (throw e, p)

-- `if (pool) await pool.end()`
unfoldable pub close_pool : Closers → Act
close_pool c p =
    if p.pool_open then closing c.end_pool (λ q. record q { pool_open = false }) p else (ok tt, p)

-- `if (redis) await redis.quit()`
unfoldable pub close_redis : Closers → Act
close_redis c p =
    if p.redis_open
    then closing c.quit_redis (λ q. record q { redis_open = false }) p
    else (ok tt, p)

unfoldable pub shutdown : Closers → Act
unfolding close_pool close_redis
shutdown c p =
    (closing c.close_app (λ q. record q { app_open = false }) >> close_pool c >> close_redis c)
      (record p { observer = step destroy p.observer })
