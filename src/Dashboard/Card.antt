-- ===== src/Dashboard/Card.antt =====
-- dashboard/src/components/ExecutionCard.svelte. `cut` is the language's `slice(0, n)` of a text, which
-- counts UTF-16 units.
use Prim.Native.String.{◌++◌ as str_append}
use codehive.Prelude.Int.{is_zero, ℤ}
use codehive.Prelude.{get_or, if◌then◌else◌, none, Bool, some, ◌∷◌, ◌++◌, [], ℕ, Option, String}
use codehive.Types.{timeout, failed, running, completed, queued, Status}
use codehive.Dashboard.Stores.{Execution}
use codehive.Dashboard.Client.{Printing}
use codehive.Dashboard.Badge.{Shown}
use codehive.Queue.Memory.{truthy}

abbrev pub status_name : Status → String
status_name queued = "queued"
status_name running = "running"
status_name completed = "completed"
status_name failed = "failed"
status_name timeout = "timeout"

unfoldable pub status_class : Status → String
status_class completed = "status-ok"
status_class failed = "status-err"
status_class timeout = "status-warn"
status_class _ = "status-pending"

-- `{#if value}` of a text: a row with its label
abbrev pub row : String → Option String → Shown
row label none = []
row label (some value) = ("label", label) ∷ ("", value) ∷ []

-- `{#if execution.durationMs}`: zero is not shown
abbrev pub duration_row : Printing → Option ℤ → Shown
duration_row print none = []
duration_row print (some ms) =
    if is_zero ms
    then []
    else ("label", "Duration") ∷ ("", str_append (print.fixed ms 1000 2) "s") ∷ []

-- `{#if execution.exitCode !== null}`: zero is shown
abbrev pub exit_row : Printing → Option ℤ → Shown
exit_row print none = []
exit_row print (some code) = ("label", "Exit Code") ∷ ("", print.whole code) ∷ []

-- `{#if text}`: a block of the class of its `<pre>`
abbrev pub block : String → String → Option String → Shown
block label class none = []
block label class (some text) = ("label", label) ∷ (class, text) ∷ []

module _ (print : Printing) (cut : ℕ → String → String) where
  unfoldable pub card_body : Execution → Shown
  card_body x =
      row "Started" (truthy x.started_at)
      ++ row "Finished" (truthy x.finished_at)
      ++ duration_row print x.duration_ms
      ++ exit_row print x.exit_code
      ++ block "stdout" "" (truthy (some x.stdout))
      ++ block "stderr" "stderr" (truthy (some x.stderr))
      ++ block "Error" "error" (truthy x.error)

  abbrev pub idle_preview : Status → String
  idle_preview queued = "queued..."
  idle_preview running = "running..."
  idle_preview _ = "No output"

  abbrev pub error_preview : Option String → Status → Shown
  error_preview none status = ("muted", idle_preview status) ∷ []
  error_preview (some text) status = ("preview stderr", cut 120 text) ∷ []

  abbrev pub output_preview : Option String → Execution → Shown
  output_preview none x = error_preview (truthy (some x.stderr)) x.status
  output_preview (some text) x = ("preview", cut 120 text) ∷ []

  unfoldable pub card_preview : Execution → Shown
  card_preview x = output_preview (truthy (some x.stdout)) x

  unfoldable pub card : Execution → Bool → Shown
  unfolding card_body card_preview status_class
  card x expanded =
      ("exec-id", cut 8 x.id)
      ∷ ("lang-badge", get_or x.language "-")
      ∷ (status_class x.status, status_name x.status)
      ∷ (if expanded then card_body x else card_preview x)
