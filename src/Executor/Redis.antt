-- ===== src/Executor/Redis.antt =====
-- `executeJob` over Redis, where `getJob` hands out a new object that `JSON.parse` made.
use codehive.Errors.{Error}
use codehive.Queue.Memory.{assign}
use codehive.Prelude.Exec.{throw, ok}
use codehive.Prelude.{String, eq_refl, refl, some, ◌≡◌}
use codehive.Executor.Process.{run_process, ProcResult}
use codehive.Types.{running, Job}
use codehive.Queue.Spec.{spec_write, Spec}
use codehive.Queue.World.{World}
use codehive.Executor.Run.{
  execute_job, process_events, prepared, record_failure, mark_running, record_result, Submitted,
  Host,
}
use codehive.Queue.Platform.{Platform}
use codehive.Executor.Memory.{running_job, failed_job}
use codehive.Executor.Phases.{execute_job-recorded, execute_job-unprepared}
use codehive.Queue.Spec.Redis.{Stores, look_up-Stores, look_up_loaded, update_job-Stores}

module _ {S V : Type 0} (P : Platform S V) (H : Host) (a : Submitted) {w : World S} {s : Spec}
    (h : Stores P w s) where
  -- the write of the result goes to an object that nobody stores
  pub unrecorded :
      (r : ProcResult) (job : Job)
      → s.job a.id ≡ some job
      → ((record_result P H a r w).0 ≡ ok tt) × Stores P (record_result P H a r w).1 s
  unfolding record_result
  unrecorded r job e =
      let k = look_up-Stores P h in
      rw (look_up_loaded P h a.id, e)
        (refl, record { backend = k.backend; order = k.order; jobs = k.jobs; named = k.named })

module _ {S V : Type 0} (P : Platform S V) (H : Host) (a : Submitted) {w : World S} {s : Spec}
    (h : Stores P w s) (job : Job) (known : s.job a.id ≡ some job) where
  marked :
      ((mark_running P H a w).0 ≡ ok tt)
      × Stores P (mark_running P H a w).1 (spec_write a.id (running_job H) s)
  unfolding mark_running
  marked = update_job-Stores P h H.marked_at a.id _ job known

  known_running : (spec_write a.id (running_job H) s).job a.id ≡ some (running_job H job)
  known_running = rw (eq_refl a.id, known)

  -- Where the directory and the file can be made, the compiler succeeds and the process has a result,
  -- `executeJob` over Redis ends without an error and leaves the stored job `running`, with the result
  -- that it had before: the result of the process is lost.
  pub execute_job-Stores_lost :
      (dir : String) (r : ProcResult)
      → H.make_dir ≡ ok dir
      → prepared H a dir ≡ ok tt
      → run_process H.decode (process_events H a dir) ≡ some r
      → ((execute_job P H a w).0 ≡ ok tt)
        × Stores P (execute_job P H a w).1 (spec_write a.id (running_job H) s)
        × ((running_job H job).status ≡ running)
        × ((running_job H job).result ≡ job.result)
  unfolding assign
  execute_job-Stores_lost dir r d p q =
      let (done_mark, h') = marked in
      let (done_write, h'') = unrecorded P H a h' r (running_job H job) known_running in
      rw (execute_job-recorded P H a w done_mark dir d r p q done_write) (refl, h'', refl, refl)

  -- Where the directory can be made but the file, or the compiler, fails, the job that Redis stores is
  -- left `failed`, with exit code -1 and the error's message in its result.
  pub execute_job_failed-Stores :
      (dir : String) (e : Error)
      → H.make_dir ≡ ok dir
      → prepared H a dir ≡ throw e
      → ((execute_job P H a w).0 ≡ ok tt)
        × Stores P
            (execute_job P H a w).1
            (spec_write a.id (failed_job H a e) (spec_write a.id (running_job H) s))
  unfolding record_failure
  execute_job_failed-Stores dir e d p =
      let (done_mark, h') = marked in
      rw (execute_job-unprepared P H a w done_mark dir d e p)
        (update_job-Stores P h' H.failed_at a.id _ (running_job H job) known_running)
