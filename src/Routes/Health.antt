-- ===== src/Routes/Health.antt =====
-- api/src/routes/health.ts, with `healthCheck` of api/src/services/db.ts. What the PostgreSQL pool
-- answers to a query is an argument.
use codehive.Prelude.Exec.{pure, ◌>>=◌}
use codehive.Types.{CheckResult, HealthLevel}
use codehive.Queue.Service.{chosen, get_redis, health_check}
use codehive.Queue.World.{World, Action}
use codehive.Http.{health, reply, Reply}
use codehive.Errors.{Error}
use codehive.Queue.Platform.{Platform}
use codehive.Types.{down, degraded, CheckResult, HealthLevel}
use codehive.Prelude.{arith, ◌↔◌, ◌⊎◌, ◌≡◌, false, ◌||◌, ◌&&◌, true, if◌then◌else◌, ℕ, Bool, String}
use codehive.Prelude.Exec.{throw, ok, Result}

-- `healthCheck` of db.ts: a query that is rejected makes `false`
abbrev pub answered : {A : Type 0} → Result Error A → Bool
answered (ok rows) = true
answered (throw e) = false

unfoldable pub db_health : {A : Type 0} → (String → Result Error A) → Bool
db_health query = answered (query "SELECT 1")

-- `db && redis ? 'ok' : db || redis ? 'degraded' : 'down'`
unfoldable pub health_level : Bool → Bool → HealthLevel
health_level db redis =
    if db && redis then HealthLevel.ok else if db || redis then degraded else down

abbrev check_result : Bool → CheckResult
check_result b = if b then CheckResult.ok else CheckResult.error

-- `status === 'ok' ? 200 : status === 'degraded' ? 200 : 503`
unfoldable pub health_code : HealthLevel → ℕ
health_code HealthLevel.ok = 200
health_code degraded = 200
health_code down = 503

-- the reply, from the two checks and the clock
unfoldable pub health_reply : ℕ → String → Bool → Bool → Reply
unfolding health_level health_code
health_reply uptime now db redis = reply (health_code (health_level db redis)) (
    health (record {
      status = health_level db redis;
      uptime = uptime;
      timestamp = now;
      database = check_result db;
      redis = check_result redis;
    }))

module _ {S V A : Type 0} (P : Platform S V) (query : String → Result Error A) where
  unfoldable pub get_health : ℕ → String → Action S Reply
  unfolding db_health health_reply
  get_health uptime now = do
    redis ← health_check P
    pure (health_reply uptime now (db_health query) redis)

module _ {S V A : Type 0} (P : Platform S V) (query : String → Result Error A) (uptime : ℕ)
    (now : String) (w : World S) where
  -- A reply of the health route has the code 200 or 503; 503 exactly where the database does not answer
  -- and a Redis client was made whose PING is not answered.
  pub get_health-503_iff :
      (r : Reply)
      → (get_health P query uptime now w).0 ≡ ok r
      → ((r.code ≡ 200) ⊎ (r.code ≡ 503))
        × ((r.code ≡ 503)
            ↔ ((db_health query ≡ false) × (chosen w ≡ true) × (P.ping w.server ≡ false)))
  unfolding get_health health_check get_redis
  get_health-503_iff r h = ground arith
