-- ===== src/Dashboard/Client.antt =====
-- dashboard/src/lib/api.ts: the wrapper of `fetch`, the paths of the requests, and `formatDuration`. What
-- `fetch` answers is an argument, and so is how numbers are printed.
use codehive.Dashboard.Stores.{Execution}
use codehive.Types.{ExecutionResult}
use codehive.Prelude.{
  ◌%◌, ◌/◌, zero, ltb, suc, str_eq, none, ◌++◌, ◌∷◌, [], if◌then◌else◌, some, ℕ, List, Option,
  String, Bool,
}
use codehive.Prelude.Int.{pos, ℤ}
use codehive.Prelude.Exec.{Result, ok, throw}
use Prim.Native.String.{◌++◌ as str_append}

-- `String(n)`, and `(n / d).toFixed(digits)`
pub record Printing : Type 0 where
  pub whole : ℤ → String
  pub fixed : ℤ → ℕ → ℕ → String

-- `text` is none where reading the body is rejected
pub record Response (A : Type 0) : Type 0 where
  pub is_ok : Bool
  pub status : ℕ
  pub status_text : String
  pub text : Option String
  pub json : Result String A

-- `RequestInit` as the client gives it
pub record Init : Type 0 where
  pub method : String
  pub body : String

abbrev pub base : String
base = "/api"

-- `body || res.statusText`
abbrev pub reason : Option String → String → String
reason none status_text = status_text
reason (some body) status_text = if str_eq body "" then status_text else body

module _ {A : Type 0} (print : Printing) where
  abbrev pub failure_text : Response A → String
  failure_text res = str_append "API " (
      str_append (print.whole (pos res.status)) (str_append ": " (reason res.text res.status_text)))

  abbrev pub answer_of : Result String (Response A) → Result String A
  answer_of (throw e) = throw e
  answer_of (ok res) = if res.is_ok then res.json else throw (failure_text res)

  -- `request`, with the server's answer to a path and its options; the header of the content type is
  -- the same for every request, and `fetch` adds it
  unfoldable pub request :
      (String → Option Init → Result String (Response A)) → String → Option Init → Result String A
  request fetch path options = answer_of (fetch (str_append base path) options)

-- `res.json()` of the result that the server sends; the dashboard knows its fields by the same names
abbrev pub execution_received : ExecutionResult → Execution
execution_received r = record {
  id = r.id;
  language = r.language;
  stdout = r.stdout;
  stderr = r.stderr;
  exit_code = r.exit_code;
  duration_ms = r.duration_ms;
  status = r.status;
  worker_id = none;
  started_at = r.started_at;
  finished_at = r.finished_at;
  error = r.error;
}

-- `if (n) q.set(name, String(n))`
abbrev pub query_part : Printing → String → Option ℕ → List String
query_part print name none = []
query_part print name (some zero) = []
query_part print name (some (suc n)) =
    str_append name (str_append "=" (print.whole (pos (suc n)))) ∷ []

-- `q.toString()`
abbrev pub join_query : List String → String
join_query [] = ""
join_query (x ∷ []) = x
join_query (x ∷ y ∷ xs) = let rest = join_query (y ∷ xs) in str_append x (str_append "&" rest)

-- `getExecutions`
unfoldable pub executions_path : Printing → Option ℕ → Option ℕ → String
executions_path print limit offset =
    let qs = join_query (query_part print "limit" limit ++ query_part print "offset" offset) in
    str_append "/executions" (if str_eq qs "" then "" else str_append "?" qs)

-- `getExecution`, `getWorker`
abbrev pub execution_path : String → String
execution_path id = str_append "/status/" id

abbrev pub worker_path : String → String
worker_path id = str_append "/workers/" id

-- `submitCode`, with `JSON.stringify(data)`
abbrev pub submit_init : String → Init
submit_init json = record { method = "POST"; body = json }

module _ {A : Type 0} (print : Printing)
    (fetch : String → Option Init → Result String (Response A)) where
  unfoldable pub submit_code : String → Result String A
  submit_code json = request print fetch "/execute" (some (submit_init json))

  unfoldable pub get_executions : Option ℕ → Option ℕ → Result String A
  get_executions limit offset = request print fetch (executions_path print limit offset) none

  unfoldable pub get_execution : String → Result String A
  get_execution id = request print fetch (execution_path id) none

  unfoldable pub get_workers : Result String A
  get_workers = request print fetch "/workers" none

  unfoldable pub get_worker : String → Result String A
  get_worker id = request print fetch (worker_path id) none

  unfoldable pub get_stats : Result String A
  get_stats = request print fetch "/stats" none

-- `connectWS`: the URL of the WebSocket, from `location.protocol` and `location.host`
unfoldable pub socket_url : String → String → String
socket_url protocol host =
    str_append (if str_eq protocol "https:" then "wss:" else "ws:")
      (str_append "//" (str_append host "/ws"))

unfoldable pub format_duration : Printing → ℕ → String
format_duration print ms =
    if ltb ms 1000
    then str_append (print.whole (pos ms)) "ms"
    else if ltb ms 60000
    then str_append (print.fixed (pos ms) 1000 1) "s"
    else str_append (print.whole (pos (ms / 60000)))
        (str_append "m " (str_append (print.whole (pos (ms % 60000 / 1000))) "s"))
