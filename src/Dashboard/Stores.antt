-- ===== src/Dashboard/Stores.antt =====
-- dashboard/src/lib/stores.ts: the stores behind the views, the loaders, and the feed that the messages
-- of the WebSocket update. What `fetch` answers is an argument, and so is `JSON.parse`, `none` where it
-- throws or where reading `type` does.
pub mod Feed
use codehive.Prelude.{
  String, Option, none, some, Bool, true, false, ◌||◌, str_eq, List, [], ◌∷◌, if◌then◌else◌, ℕ,
  take, keep,
}
use codehive.Prelude.Int.{ℤ}
use codehive.Prelude.Exec.{Result, ok, throw}
use codehive.Types.{Status, failed, WorkerStatus, idle, busy, offline}
use codehive.Queue.World.{Action}

-- `ExecutionResult` of api.ts
pub record Execution : Type 0 where
  pub id : String
  pub language : Option String
  pub stdout : String
  pub stderr : String
  pub exit_code : Option ℤ
  pub duration_ms : Option ℤ
  pub status : Status
  pub worker_id : Option String
  pub started_at : Option String
  pub finished_at : Option String
  pub error : Option String

-- `WorkerInfo` of api.ts
pub record Worker : Type 0 where
  pub id : String
  pub name : Option String
  pub hostname : String
  pub status : WorkerStatus
  pub labels : List (String × String)
  pub last_heartbeat : String
  pub current_job : Option String
  pub cpus : ℕ
  pub memory : ℕ

-- the stores; `D` is the shape of the statistics
pub record Stores (D : Type 0) : Type 0 where
  pub executions : List Execution
  pub execution_total : ℕ
  pub executions_loading : Bool
  pub workers : List Worker
  pub workers_loading : Bool
  pub stats : Option D
  pub stats_loading : Bool
  pub live_feed : List Execution

-- `data.type === 'execution_update' || data.type === 'execution_complete'`
abbrev pub is_update : String → Bool
is_update type = str_eq type "execution_update" || str_eq type "execution_complete"

-- `[data.payload, ...f].slice(0, 50)`, for a message of these types
abbrev pub add_message : Option (String × Execution) → List Execution → List Execution
add_message none f = f
add_message (some (type, payload)) f = if is_update type then take 50 (payload ∷ f) else f

module _ {D : Type 0} (parse : String → Option (String × Execution)) where
  unfoldable pub on_ws_message : String → Stores D → Stores D
  on_ws_message text s = record s { live_feed = add_message (parse text) s.live_feed }

module _ {D : Type 0} where
  -- behind the answer: the store is set where there is one, and the flag is cleared in any case
  abbrev pub loaded_stats : Result String D → Stores D → Result String (Unit {0}) × Stores D
  loaded_stats (ok s) w = (ok tt, record w { stats = some s; stats_loading = false })
  loaded_stats (throw e) w = (throw e, record w { stats_loading = false })

  unfoldable pub load_stats : Result String D → Stores D → Result String (Unit {0}) × Stores D
  load_stats answer w = loaded_stats answer (record w { stats_loading = true })

  abbrev pub loaded_executions :
      Result String (List Execution × ℕ) → Stores D → Result String (Unit {0}) × Stores D
  loaded_executions (ok (items, total)) w =
      (ok tt, record w { executions = items; execution_total = total; executions_loading = false })
  loaded_executions (throw e) w = (throw e, record w { executions_loading = false })

  unfoldable pub load_executions :
      Result String (List Execution × ℕ) → Stores D → Result String (Unit {0}) × Stores D
  load_executions answer w = loaded_executions answer (record w { executions_loading = true })

  abbrev pub loaded_workers :
      Result String (List Worker) → Stores D → Result String (Unit {0}) × Stores D
  loaded_workers (ok ws) w = (ok tt, record w { workers = ws; workers_loading = false })
  loaded_workers (throw e) w = (throw e, record w { workers_loading = false })

  unfoldable pub load_workers :
      Result String (List Worker) → Stores D → Result String (Unit {0}) × Stores D
  load_workers answer w = loaded_workers answer (record w { workers_loading = true })

abbrev pub is_online : WorkerStatus → Bool
is_online idle = true
is_online busy = true
is_online offline = false

abbrev pub is_failed : Status → Bool
is_failed failed = true
is_failed _ = false

module _ {D : Type 0} where
  -- `onlineWorkers`
  unfoldable pub online_workers : Stores D → List Worker
  online_workers s = keep (λ w. is_online w.status) s.workers

  -- `failedExecutions`
  unfoldable pub failed_executions : Stores D → List Execution
  failed_executions s = keep (λ e. is_failed e.status) s.executions
