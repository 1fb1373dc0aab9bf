-- ===== src/Executor/Run.antt =====
-- `executeJob` of api/src/services/executor.ts. What the file system, the compiler and the operating
-- system answer is a `Host`. The removal of the directory in the `finally` block, whose errors are
-- ignored, does not touch the state of the server process and is left out.
use codehive.Queue.Service.{get_job, update_job}
use codehive.Queue.Platform.{Platform}
use codehive.Types.{completed, running, failed, Status, ExecutionResult}
use codehive.Executor.Process.{Event, run_process, ProcResult}
use codehive.Executor.Languages.{command_args, LangCfg, file_name, config_of}
use codehive.Prelude.Int.{pos, sub_ℕ, is_zero, minus_one, ℤ}
use codehive.Errors.{message, app, plain, Error}
use codehive.Queue.Memory.{truthy, JobUpdates}
use codehive.Prelude.{
  [], ◌*◌, ◌∷◌, get_or, str_eq, if◌then◌else◌, ℕ, some, none, Option, List, String,
}
use codehive.Prelude.Exec.{try_catch, pure, ok, throw, Result}
use Prim.Native.String.{◌++◌ as str_append}
use codehive.Prelude.Exec.{◌>>=◌, ◌>>◌}
use codehive.Queue.World
use codehive.Queue.World.{World, Action, modify}

pub record Host : Type 0 where
  -- `mkdtempSync`
  pub make_dir : Result Error String
  -- `writeFileSync`, of a path and the code
  pub write_file : String → String → Result Error (Unit {0})
  -- `execSync`, of a command
  pub exec : String → Result Error (Unit {0})
  -- the events of a child process: its command, its arguments, its input and the timer in ms
  pub spawn : String → List String → String → ℕ → List Event
  -- `Buffer.toString()`
  pub decode : List ℕ → String
  -- the clock, in the order of the calls: as texts, and in ms before and behind the process
  pub started_at : String
  pub marked_at : String
  pub finished_at : String
  pub failed_at : String
  pub start_ms : ℕ
  pub end_ms : ℕ

-- the arguments of `executeJob`
pub record Submitted : Type 0 where
  pub id : String
  pub language : String
  pub code : String
  pub stdin : Option String
  pub timeout_sec : Option ℕ

abbrev pub no_updates : JobUpdates
no_updates = record {
  id = none;
  payload = none;
  status = none;
  worker_id = none;
  created_at = none;
  result = none;
}

-- `err instanceof Error ? err.message : String(err)`
abbrev pub error_message : Error → String
error_message (plain m) = m
error_message (app e) = message e

-- `exitCode === 0 ? 'completed' : 'failed'`
abbrev pub status_of : ℤ → Status
status_of code = if is_zero code then completed else failed

-- `join(dir, name)`
abbrev pub join : String → String → String
join dir name = str_append dir (str_append "/" name)

-- the configuration that the command is spawned with
abbrev pub spawn_cfg : String → String → LangCfg
spawn_cfg dir language =
    if str_eq language "java"
    then record { cmd = "java"; ext = ".java"; args = some ("-cp" ∷ dir ∷ "Main" ∷ []) }
    else config_of language

module _ (H : Host) (a : Submitted) where
  -- the child process of the job, and its result
  unfoldable pub process_events : String → List Event
  unfolding config_of command_args file_name
  process_events dir =
      let cfg = spawn_cfg dir a.language in
      H.spawn cfg.cmd (command_args cfg (join dir (file_name a.language))) (get_or a.stdin "")
        (get_or a.timeout_sec 30 * 1000)

  abbrev pub finished : ProcResult → ExecutionResult
  finished r = record {
    id = a.id;
    status = status_of r.exit_code;
    stdout = r.stdout;
    stderr = r.stderr;
    exit_code = some r.exit_code;
    language = some a.language;
    started_at = some H.started_at;
    finished_at = some H.finished_at;
    error = truthy r.error;
    duration_ms = some (sub_ℕ H.end_ms H.start_ms);
  }

  abbrev pub failure_result : Error → ExecutionResult
  failure_result e = record {
    id = a.id;
    status = failed;
    stdout = "";
    stderr = "";
    exit_code = some minus_one;
    language = some a.language;
    started_at = some H.started_at;
    finished_at = some H.finished_at;
    error = some (error_message e);
    duration_ms = some (pos 0);
  }

  -- `if (language === 'java') execSync(…)`, behind the write of the file
  abbrev compiled : String → Result Error (Unit {0}) → Result Error (Unit {0})
  compiled file (throw e) = throw e
  compiled file (ok u) =
      if str_eq a.language "java"
      then H.exec (str_append "javac \"" (str_append file "\""))
      else ok tt

  -- the synchronous calls of the `try` block before the process: the file, and the Java compiler
  unfoldable pub prepared : String → Result Error (Unit {0})
  unfolding file_name
  prepared dir =
      let file = join dir (file_name a.language) in compiled file (H.write_file file a.code)

module _ {S : Type 0} where
  -- `job.result = res; job.status = res.status`, on the object that `getJob` returned
  abbrev pub write_result : ExecutionResult → Option World.Ref → Action S (Unit {0})
  write_result res none = pure tt
  write_result res (some r) =
      modify r (λ job. record job { result = some res; status = res.status })

  abbrev pub from_result : {A : Type 0} → Result Error A → Action S A
  from_result r w = (r, w)

module _ {S V : Type 0} (P : Platform S V) (H : Host) (a : Submitted) where
  -- up to the first `await`
  unfoldable pub mark_running : Action S (Unit {0})
  mark_running = update_job P H.marked_at a.id (record no_updates { status = some running })

  -- behind the process
  unfoldable pub record_result : ProcResult → Action S (Unit {0})
  unfolding modify
  record_result r = do found ← get_job P a.id; write_result (finished H a r) found

  -- the `catch` block
  unfoldable pub record_failure : Error → Action S (Unit {0})
  record_failure e =
      update_job P H.failed_at a.id
        (record no_updates { status = some failed; result = some (some (failure_result H a e)) })

  -- while the process runs, the promise is pending
  abbrev pub when_resolved : Option ProcResult → Action S (Unit {0})
  when_resolved none = pure tt
  when_resolved (some r) = record_result r

  -- the `try` block
  abbrev pub attempt : String → Action S (Unit {0})
  attempt dir = do
    from_result (prepared H a dir)
    when_resolved (run_process H.decode (process_events H a dir))

  -- `mkdtempSync` stands outside the `try` block
  unfoldable pub execute_job : Action S (Unit {0})
  execute_job = do
    mark_running
    dir ← from_result H.make_dir
    try_catch (attempt dir) record_failure
