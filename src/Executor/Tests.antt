-- ===== src/Executor/Tests.antt =====
-- The theorems on the executor at concrete inputs, and runs of it.
use codehive.Queue.Spec.Serves.{Serves}
use codehive.Errors.{plain}
use codehive.Prelude.Int.{pos}
use codehive.Prelude.Exec.{throw, ok}
use codehive.Queue.Service.{fresh_job}
use codehive.Executor.Process.{close, out, Event, run_process, ProcResult}
use codehive.Executor.Run.{finished, process_events, execute_job, prepared, Submitted, Host}
use codehive.Types.{running, Job}
use codehive.Prelude.{◌==◌, if◌then◌else◌, String, ℕ, [], ◌∷◌, refl, List, ◌≡◌, some, none}
use codehive.Queue.World.{World}
use codehive.Queue.Tests.{print_one, IsFresh-no_store}
use codehive.Queue.Sample.{sample, no_store, Store}
use codehive.Queue.Spec.{spec_write, Spec, Call, spec_call, call, submit}
use codehive.Queue.Spec.Agree.{started, started-Implements, started-Stores, no_jobs}
use codehive.Queue.Spec.Memory
use codehive.Queue.Spec.Redis
use codehive.Executor.Memory.{running_job, with_result, execute_job-Implements}
use codehive.Executor.Redis.{execute_job-Stores_lost}

abbrev pub submit_a : Call
submit_a = submit "a" "t0" print_one

abbrev pub stored : Spec
stored = (spec_call submit_a no_jobs).1

abbrev pub over_memory : World Store
over_memory = (call sample submit_a (started none no_store)).1

abbrev pub over_redis : World Store
over_redis = (call sample submit_a (started (some "cache") no_store)).1

pub over_memory-Implements : Memory.Implements over_memory stored
over_memory-Implements =
    (Memory.call-Implements sample (started-Implements none no_store refl) submit_a refl).1

pub over_redis-Stores : Redis.Stores sample over_redis stored
over_redis-Stores =
    (Redis.call-Stores sample (started-Stores sample (some "cache") no_store refl IsFresh-no_store)
      submit_a refl).1

abbrev pub job_a : Job
job_a = fresh_job "a" "t0" print_one

pub known_a : stored.job "a" ≡ some job_a
unfolding spec_call
known_a = refl

abbrev pub hello : List Event
hello = out (104 ∷ 101 ∷ []) ∷ close (some (pos 0)) ∷ []

-- the decoding of two chunks
abbrev pub small : List ℕ → String
small [] = ""
small (n ∷ bytes) = if n == 104 then "hello" else "!"

abbrev pub machine : Host
machine = record {
  make_dir = ok "/tmp/ch-1";
  write_file = λ path code. ok tt;
  exec = λ command. ok tt;
  spawn = λ cmd args stdin ms. hello;
  decode = small;
  started_at = "t1";
  marked_at = "t1";
  finished_at = "t2";
  failed_at = "t2";
  start_ms = 10;
  end_ms = 25;
}

-- a full disk
abbrev full : Host
full = record machine { write_file = λ path code. throw (plain "ENOSPC") }

abbrev pub run_a : Submitted
run_a = record {
  id = "a";
  language = "python";
  code = "print('hello')";
  stdin = none;
  timeout_sec = none;
}

abbrev pub said_hello : ProcResult
said_hello = record { stdout = "hello"; stderr = ""; exit_code = pos 0; error = none }

pub hello_runs :
    run_process machine.decode (process_events machine run_a "/tmp/ch-1") ≡ some said_hello
unfolding run_process process_events
hello_runs = refl

pub is_prepared : prepared machine run_a "/tmp/ch-1" ≡ ok tt
unfolding prepared
is_prepared = refl

execute_job-Implements_example :
    ((execute_job sample machine run_a over_memory).0 ≡ ok tt)
    × Memory.Implements (execute_job sample machine run_a over_memory).1 (
        spec_write "a"
          (with_result (finished machine run_a said_hello))
          (spec_write "a" (running_job machine) stored))
execute_job-Implements_example =
    execute_job-Implements sample machine run_a over_memory-Implements job_a known_a "/tmp/ch-1"
      said_hello refl is_prepared hello_runs

execute_job-Stores_lost_example :
    ((execute_job sample machine run_a over_redis).0 ≡ ok tt)
    × Redis.Stores sample
        (execute_job sample machine run_a over_redis).1
        (spec_write "a" (running_job machine) stored)
    × ((running_job machine job_a).status ≡ running)
    × ((running_job machine job_a).result ≡ job_a.result)
execute_job-Stores_lost_example =
    execute_job-Stores_lost sample machine run_a over_redis-Stores job_a known_a "/tmp/ch-1"
      said_hello refl is_prepared hello_runs
