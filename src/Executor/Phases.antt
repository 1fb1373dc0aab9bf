-- ===== src/Executor/Phases.antt =====
-- `executeJob` as its phases, whatever the backend.
use codehive.Executor.Process.{run_process, ProcResult}
use codehive.Queue.World.{World}
use codehive.Prelude.{some, String, ◌≡◌}
use codehive.Errors.{Error}
use codehive.Executor.Run.{
  record_result, process_events, record_failure, prepared, execute_job, mark_running, Submitted,
  Host,
}
use codehive.Queue.Platform.{Platform}
use codehive.Prelude.Exec.{throw, ok}

module _ {S V : Type 0} (P : Platform S V) (H : Host) (a : Submitted) (w : World S)
    (marked : (mark_running P H a w).0 ≡ ok tt) where
  abbrev pub behind_mark : World S
  behind_mark = (mark_running P H a w).1

  -- no directory: the error escapes, since the call stands outside the `try` block
  pub execute_job-no_dir :
      (e : Error) → H.make_dir ≡ throw e → execute_job P H a w ≡ (throw e, behind_mark)
  unfolding execute_job
  execute_job-no_dir e d = simp (marked, d)

  module _ (dir : String) (d : H.make_dir ≡ ok dir) where
    pub execute_job-unprepared :
        (e : Error)
        → prepared H a dir ≡ throw e
        → execute_job P H a w ≡ record_failure P H a e behind_mark
    unfolding execute_job
    execute_job-unprepared e p = simp (marked, d, p)

    pub execute_job-recorded :
        (r : ProcResult)
        → prepared H a dir ≡ ok tt
        → run_process H.decode (process_events H a dir) ≡ some r
        → (record_result P H a r behind_mark).0 ≡ ok tt
        → execute_job P H a w ≡ (ok tt, (record_result P H a r behind_mark).1)
    unfolding execute_job
    execute_job-recorded r p q u = simp (marked, d, p, q, u)
