-- ===== src/Routes/Workers.antt =====
-- api/src/routes/workers.ts. The map of workers is a variable of the module; no code writes it.
pub mod Laws
use codehive.Prelude.{none, some, Option, String, []}
use codehive.Prelude.Dict
use codehive.Types.{WorkerInfo}
use codehive.Errors.{not_found_error, app}
use codehive.Http.{Reply, reply, error_reply, workers, worker}

-- `const workers = new Map()`
abbrev pub no_workers : Dict.Dict WorkerInfo
no_workers = []

-- `GET /api/workers`
unfoldable pub list_workers : Dict.Dict WorkerInfo → Reply
list_workers map_ = reply 200 (workers (Dict.values map_))

abbrev pub worker_reply : String → Option WorkerInfo → Reply
worker_reply id none = error_reply (app (not_found_error "Worker" id))
worker_reply id (some w) = reply 200 (worker w)

-- `GET /api/workers/:id`
unfoldable pub get_worker : String → Dict.Dict WorkerInfo → Reply
get_worker id map_ = worker_reply id (Dict.get id map_)
