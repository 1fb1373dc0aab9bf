-- ===== src/Executor/Memory.antt =====
-- `executeJob` over the memory queue, where `getJob` hands out the stored object itself.
use codehive.Queue.Service.{get_redis}
use codehive.Errors.{Error}
use codehive.Executor.Process.{run_process, ProcResult}
use codehive.Prelude.Exec.{throw, ok}
use codehive.Queue.Spec.{spec_write, Spec}
use codehive.Queue.World.{World}
use codehive.Prelude.{refl, String, eq_refl, ◌≡◌, some}
use codehive.Queue.Memory.{assign}
use codehive.Queue.Platform.{Platform}
use codehive.Types.{failed, running, Job, ExecutionResult}
use codehive.Executor.Run.{
  failure_result, record_failure, record_result, finished, execute_job, process_events, prepared,
  mark_running, no_updates, Submitted, Host,
}
use codehive.Executor.Phases.{execute_job-unprepared, execute_job-recorded}
use codehive.Queue.Spec.Memory.{
  Implements, update_job-Implements, look_up_state, write-Implements, ref_of_job,
}

-- the job while it runs, and when its process has ended
abbrev pub running_job : Host → Job → Job
running_job H job = assign (record no_updates { status = some running }) H.marked_at job

abbrev pub failed_job : Host → Submitted → Error → Job → Job
failed_job H a e job =
    assign (record no_updates { status = some failed; result = some (some (failure_result H a e)) })
      H.failed_at job

abbrev pub with_result : ExecutionResult → Job → Job
with_result res job = record job { result = some res; status = res.status }

module _ {S V : Type 0} (P : Platform S V) (H : Host) (a : Submitted) {w : World S} {s : Spec}
    (h : Implements w s) where
  -- the write of the result goes to the stored object
  pub recorded :
      (r : ProcResult) (job : Job)
      → s.job a.id ≡ some job
      → ((record_result P H a r w).0 ≡ ok tt)
        × Implements (record_result P H a r w).1 (spec_write a.id (with_result (finished H a r)) s)
  unfolding record_result
  recorded r job e =
      let (q, at_id) = ref_of_job h a.id job e in
      rw (look_up_state P w h.backend a.id, at_id)
        (refl, (unfold get_redis in write-Implements h a.id (with_result (finished H a r)) q at_id))

module _ {S V : Type 0} (P : Platform S V) (H : Host) (a : Submitted) {w : World S} {s : Spec}
    (h : Implements w s) (job : Job) (known : s.job a.id ≡ some job) where
  marked :
      ((mark_running P H a w).0 ≡ ok tt)
      × Implements (mark_running P H a w).1 (spec_write a.id (running_job H) s)
  unfolding mark_running
  marked = update_job-Implements P h H.marked_at a.id _ job known

  -- the job that the specification has behind the mark
  known_running : (spec_write a.id (running_job H) s).job a.id ≡ some (running_job H job)
  known_running = rw (eq_refl a.id, known)

  -- Where the directory and the file can be made, the compiler succeeds and the process has a result,
  -- `executeJob` over the memory queue leaves the job with that result and its status; no other job and
  -- nothing of the order of waiting identifiers changes.
  pub execute_job-Implements :
      (dir : String) (r : ProcResult)
      → H.make_dir ≡ ok dir
      → prepared H a dir ≡ ok tt
      → run_process H.decode (process_events H a dir) ≡ some r
      → ((execute_job P H a w).0 ≡ ok tt)
        × Implements
            (execute_job P H a w).1
            (spec_write a.id (with_result (finished H a r)) (spec_write a.id (running_job H) s))
  execute_job-Implements dir r d p q =
      let (done_mark, h') = marked in
      let (done_write, h'') = recorded P H a h' r (running_job H job) known_running in
      rw (execute_job-recorded P H a w done_mark dir d r p q done_write) (refl, h'')

  -- Where the directory can be made but the file, or the compiler, fails, the job of the memory queue is
  -- left `failed`, with exit code -1 and the error's message in its result.
  pub execute_job_failed-Implements :
      (dir : String) (e : Error)
      → H.make_dir ≡ ok dir
      → prepared H a dir ≡ throw e
      → ((execute_job P H a w).0 ≡ ok tt)
        × Implements
            (execute_job P H a w).1
            (spec_write a.id (failed_job H a e) (spec_write a.id (running_job H) s))
  unfolding record_failure
  execute_job_failed-Implements dir e d p =
      let (done_mark, h') = marked in
      rw (execute_job-unprepared P H a w done_mark dir d e p)
        (update_job-Implements P h' H.failed_at a.id _ (running_job H job) known_running)
