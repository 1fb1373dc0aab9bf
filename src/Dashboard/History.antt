-- ===== src/Dashboard/History.antt =====
-- The markup of dashboard/src/routes/Executions.svelte, and dashboard/src/routes/Workers.svelte with its
-- selection. How a date and a size are printed is an argument.
use codehive.Prelude.Int.{pos}
use codehive.Types.{offline, busy, idle, WorkerStatus}
use codehive.Prelude.{
  length, none, true, ◌++◌, false, str_eq, ◌||◌, some, [], get_or, ◌∷◌, if◌then◌else◌, Bool, ℕ,
  Option, List, String,
}
use Prim.Native.String.{◌++◌ as str_append}
use codehive.Dashboard.Stores.{Execution, Worker}
use codehive.Dashboard.Client.{Printing}
use codehive.Dashboard.Badge.{Shown, badge, code_editor}
use codehive.Dashboard.Card.{card, status_name}
use codehive.Dashboard.Page.{Page, offered}

-- the text of the button, and whether it is disabled
abbrev pub run_button : (String → String) → Page → String × Bool
run_button trim p =
    (if p.submitting then "Running..." else "Run", p.submitting || str_eq (trim p.code) "")

abbrev pub error_message : String → Shown
error_message text = if str_eq text "" then [] else ("error-msg", text) ∷ []

abbrev pub options : List String → Shown
options [] = []
options (l ∷ ls) = ("option", l) ∷ options ls

-- `exec.startedAt ?? exec.finishedAt ?? ''`
abbrev pub row_time : Execution → String
row_time x = get_or x.started_at (get_or x.finished_at "")

abbrev pub is_selected : Option String → String → Bool
is_selected none id = false
is_selected (some k) id = str_eq k id

abbrev pub history_row : Option String → Execution → Shown
history_row selected x =
    (if is_selected selected x.id then "exec-row selected" else "exec-row", "")
    ∷ ("lang-badge", get_or x.language "-")
    ∷ ("status-text", status_name x.status)
    ∷ ("exec-time", row_time x)
    ∷ []

abbrev pub history_rows : Option String → List Execution → Shown
history_rows selected [] = []
history_rows selected (x ∷ xs) = history_row selected x ++ history_rows selected xs

abbrev pub history : Option String → List Execution → Shown
history selected [] = ("empty", "No executions found.") ∷ []
history selected (x ∷ xs) = history_rows selected (x ∷ xs)

module _ (print : Printing) (cut : ℕ → String → String) (trim : String → String) where
  abbrev pub detail_panel : Option Execution → Shown
  detail_panel none = []
  detail_panel (some x) =
      ("h3", "Execution Details") ∷ ("btn ghost", "Close") ∷ card print cut x true

  unfoldable pub executions_page : Page → List Execution → Shown
  unfolding code_editor
  executions_page p items =
      ("section-title", "New Execution") ∷ options offered
      ++ ("btn primary", (run_button trim p).0) ∷ code_editor p.language p.code
      ++ ("input", p.stdin) ∷ error_message p.submit_error
      ++ ("section-title", "History") ∷ history p.selected_id items
      ++ detail_panel p.detail

-- `selectedWorker?.id === w.id ? null : w`
unfoldable pub select_worker : Worker → Option Worker → Option Worker
select_worker w none = some w
select_worker w (some v) = if str_eq v.id w.id then none else some w

abbrev pub worker_status : WorkerStatus → String
worker_status idle = "idle"
worker_status busy = "busy"
worker_status offline = "offline"

-- `worker.currentJob ? 1 : 0`
abbrev pub busy_jobs : Option String → String
busy_jobs none = "0/1"
busy_jobs (some job) = if str_eq job "" then "0/1" else "1/1"

abbrev pub label_chips : List (String × String) → Shown
label_chips [] = []
label_chips ((k, v) ∷ ls) = ("label-chip", str_append k (str_append "=" v)) ∷ label_chips ls

module _ (print : Printing) (local_time : String → String) where
  abbrev pub heartbeat : String → String
  heartbeat t = if str_eq t "" then "never" else local_time t

  unfoldable pub worker_card : Worker → Shown
  unfolding badge
  worker_card w =
      ("worker-name", w.hostname)
      ∷ ("badge", (badge (worker_status w.status) none).text)
      ∷ ("metric-val", str_append (print.whole (pos w.cpus)) " CPU")
      ∷ ("metric-lbl", str_append (print.fixed (pos w.memory) 1024 0) " GB")
      ∷ ("metric-val", busy_jobs w.current_job)
      ∷ ("metric-lbl", "jobs")
      ∷ ("heartbeat", heartbeat w.last_heartbeat)
      ∷ []

  abbrev pub worker_cards : List Worker → Shown
  worker_cards [] = []
  worker_cards (w ∷ ws) = worker_card w ++ worker_cards ws

  abbrev pub worker_grid : List Worker → Shown
  worker_grid [] = ("empty", "No workers connected.") ∷ []
  worker_grid (w ∷ ws) = worker_cards (w ∷ ws)

  abbrev pub worker_detail : Option Worker → Shown
  worker_detail none = []
  worker_detail (some w) =
      ("detail-title", w.hostname)
      ∷ ("detail-label", "Status")
      ∷ ("badge", (badge (worker_status w.status) none).text)
      ∷ ("detail-label", "ID")
      ∷ ("detail-val", w.id)
      ∷ ("detail-label", "CPU")
      ∷ ("detail-val", str_append (print.whole (pos w.cpus)) " cores")
      ∷ ("detail-label", "Memory")
      ∷ ("detail-val", str_append (print.fixed (pos w.memory) 1024 1) " GB")
      ∷ ("detail-label", "Current Job")
      ∷ ("detail-val", get_or w.current_job "none")
      ∷ ("detail-label", "Last Heartbeat")
      ∷ ("detail-val", local_time w.last_heartbeat)
      ∷ ("detail-label", "Labels")
      ∷ label_chips w.labels

  unfoldable pub workers_page : List Worker → Option Worker → Shown
  unfolding worker_card
  workers_page ws selected =
      ("section-title", str_append "Workers (" (str_append (print.whole (pos (length ws))) ")"))
        ∷ worker_grid ws
      ++ worker_detail selected
