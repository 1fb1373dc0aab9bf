-- ===== src/Types.antt =====
-- api/src/types/index.ts: the shapes that the services and the routes exchange. A number that may be
-- signed is an integer; an optional field, and one that may be null, is an `Option`.
use codehive.Prelude.{ℕ, String, Option, Bool, true, false, List}
use codehive.Prelude.Int.{ℤ}

-- the union of `ExecutionResult['status']`
pub data Status : Type 0 where
  queued running completed failed timeout : Status

pub record ExecutionRequest : Type 0 where
  pub image : String
  pub cmd : List String
  pub env : Option (List (String × String))
  pub timeout : Option ℕ
  pub memory : Option ℕ
  pub cpus : Option ℕ

pub record ExecutionResult : Type 0 where
  pub id : String
  pub status : Status
  pub stdout : String
  pub stderr : String
  pub exit_code : Option ℤ
  pub language : Option String
  pub started_at : Option String
  pub finished_at : Option String
  pub error : Option String
  pub duration_ms : Option ℤ

pub data JobType : Type 0 where
  execute : JobType

pub record Job : Type 0 where
  pub id : String
  pub type : JobType
  pub payload : ExecutionRequest
  pub status : Status
  pub worker_id : Option String
  pub created_at : String
  pub updated_at : String
  pub result : Option ExecutionResult

pub data WorkerStatus : Type 0 where
  idle busy offline : WorkerStatus

pub record WorkerInfo : Type 0 where
  pub id : String
  pub hostname : String
  pub status : WorkerStatus
  pub labels : List (String × String)
  pub last_heartbeat : String
  pub current_job : Option String
  pub cpus : ℕ
  pub memory : ℕ

pub data HealthLevel : Type 0 where
  ok degraded down : HealthLevel

pub data CheckResult : Type 0 where
  ok error : CheckResult

pub record HealthStatus : Type 0 where
  pub status : HealthLevel
  pub uptime : ℕ
  pub timestamp : String
  pub database : CheckResult
  pub redis : CheckResult

pub Status-discrete : Discrete Status
Status-discrete = hlevel

-- `s === t` on statuses
abbrev pub is_completed : Status → Bool
is_completed completed = true
is_completed _ = false
