-- ===== src/Commands.antt =====
-- The calls of api/src/services/queue.ts over Redis, one command of the server at a time: `await` gives
-- every other call the chance to send its own command in between. A command may also be lost on its way,
-- or its reply may be. Where the connection was lost, ioredis sends a command that has no reply again, so it
-- may be executed twice; behind `maxRetriesPerRequest` retries it gives up, the promise is rejected, and the
-- call ends. What is left out is that the MULTI of `enqueue` is executed, and then sent and executed again:
-- that queues its job twice.
use codehive.Dashboard.Socket.{Run}
pub mod Holds
pub mod Effects
pub mod Executed
pub mod Coherent
pub mod Safety
pub mod Overlap
mod Tests
use codehive.Prelude.{
  ◌==◌, ◌≡◌, ◌≢◌, ℕ, String, Bool, Option, none, some, List, true, false, str_eq, if◌then◌else◌,
}
use codehive.Prelude.Exec.{Result, ok, throw}
use codehive.Types.{Job, ExecutionRequest, running, failed}
use codehive.Errors.{Error, plain}
use codehive.Queue.Platform.{Platform}
use codehive.Queue.Memory.{JobUpdates, assign, job_not_found, truthy}
use codehive.Queue.Service.{queue_key, job_key, fresh_job, truthy_text}
use codehive.Routes.WorkerApi.{Report, claim, settle, has_ended}
use codehive.Executor.Run.{no_updates, Host, Submitted, failure_result}

-- A call that waits for the reply to a command, with what it knows by then.
pub data Command : Type 0 where
  -- `enqueue`: MULTI, SET of the job, LPUSH of its identifier, EXEC
  adding : String → String → ExecutionRequest → Command
  -- `dequeue`: RPOP, and GET of the job behind it
  popping : Command
  taking : String → Command
  -- `getJob`: GET
  looking : String → Command
  -- `updateJob`: GET, and SET of the changed copy
  changing : String → JobUpdates → Command
  storing : String → Job → Command

-- a command that is not the MULTI of `enqueue`
abbrev pub IsLater : Command → Type 0
IsLater (adding id at request) = ⊥
IsLater _ = Unit

-- What a call does when a reply has come: it sends its next command, or its promise is settled.
pub data Outcome : Type 0 where
  sends : Command → Outcome
  finds : Option Job → Outcome
  ends : Outcome
  raises : Error → Outcome

module _ {S V : Type 0} (P : Platform S V) where
  -- `JSON.parse(data)`
  abbrev pub parsed_job : Result Error Job → Outcome
  parsed_job (ok job) = finds (some job)
  parsed_job (throw e) = raises e

  -- `data ? JSON.parse(data) as Job : null`
  abbrev pub read_reply : Option V → Outcome
  read_reply none = finds none
  read_reply (some text) = parsed_job (P.parse text)

  -- `Object.assign(job, updates, { updatedAt: now })` and the SET of the copy
  abbrev pub changed_copy : String → String → JobUpdates → Result Error Job → Outcome
  changed_copy now id u (ok job) = sends (storing id (assign u now job))
  changed_copy now id u (throw e) = raises e

  abbrev pub change_reply : String → String → JobUpdates → Option V → Outcome
  change_reply now id u none = raises (plain (job_not_found id))
  change_reply now id u (some text) = changed_copy now id u (P.parse text)

  -- `if (!id) return null`
  abbrev pub pop_reply : Option String → Outcome
  pop_reply none = finds none
  pop_reply (some id) = sends (taking id)

  -- The server executes a command and replies, and the call goes on at the time `now`, up to its next
  -- `await`.
  unfoldable pub answer : String → Command → S → Outcome × S
  answer now (adding id at request) s = (
    finds (some (fresh_job id at request)),
    P.lpush queue_key id (P.set (job_key id) (P.stringify (fresh_job id at request)) s),
  )
  answer now popping s = let (id, t) = P.rpop queue_key s in (pop_reply (truthy id), t)
  answer now (taking id) s = (read_reply (truthy_text P (P.get (job_key id) s)), s)
  answer now (looking id) s = (read_reply (truthy_text P (P.get (job_key id) s)), s)
  answer now (changing id u) s = (change_reply now id u (truthy_text P (P.get (job_key id) s)), s)
  answer now (storing id job) s = (ends, P.set (job_key id) (P.stringify job) s)

-- the call behind an outcome, while it goes on
abbrev pub going_on : Outcome → Option Command
going_on (sends c) = some c
going_on _ = none

-- The updates that the code hands to `updateJob`: of a worker's claim and report, and of `executeJob`.
pub data Update (id : String) : JobUpdates → Type 0 where
  claims : (worker : String) → Update id (claim worker)
  settles : (r : Report) → has_ended r.status ≡ true → Update id (settle id r)
  marks : Update id (record no_updates { status = some running })
  fails :
      (H : Host) (a : Submitted) (e : Error)
      → a.id ≡ id
      → Update id
          (record no_updates { status = some failed; result = some (some (failure_result H a e)) })

-- the server, and the calls that are under way, each under a number of its own
pub record Process (S : Type 0) : Type 0 where
  pub server : S
  pub calls : ℕ → Option Command

abbrev pub at_call : ℕ → Option Command → (ℕ → Option Command) → ℕ → Option Command
at_call i o calls = λ j. if i == j then o else calls j

module _ {S V : Type 0} (P : Platform S V) where
  -- One step, of any call. `randomUUID` draws an identifier that is not empty and that no job has, nor one
  -- that is being added.
  pub data Move (p : Process S) : Process S → Type 0 where
    submits :
        (i : ℕ) (id at : String) (request : ExecutionRequest)
        → p.calls i ≡ none
        → str_eq id "" ≡ false
        → P.get (job_key id) p.server ≡ none
        → ((j : ℕ) (at' : String) (r : ExecutionRequest) → p.calls j ≢ some (adding id at' r))
        → Move p (record p { calls = at_call i (some (adding id at request)) p.calls })
    asks :
        (i : ℕ) → p.calls i ≡ none → Move p (record p { calls = at_call i (some popping) p.calls })
    looks :
        (i : ℕ) (id : String)
        → p.calls i ≡ none
        → Move p (record p { calls = at_call i (some (looking id)) p.calls })
    changes :
        (i : ℕ) (id : String) (u : JobUpdates)
        → p.calls i ≡ none
        → Update id u
        → Move p (record p { calls = at_call i (some (changing id u)) p.calls })
    -- a command is executed, and its reply comes
    answered :
        (i : ℕ) (c : Command) (now : String)
        → p.calls i ≡ some c
        → Move p (record {
          server = (answer P now c p.server).1;
          calls = at_call i (going_on (answer P now c p.server).0) p.calls;
        })
    -- a command is lost
    dropped :
        (i : ℕ) (c : Command)
        → p.calls i ≡ some c
        → Move p (record p { calls = at_call i none p.calls })
    -- a command is executed, its reply is lost, and the client gives up
    unanswered :
        (i : ℕ) (c : Command) (now : String)
        → p.calls i ≡ some c
        → Move p (record { server = (answer P now c p.server).1; calls = at_call i none p.calls })
    -- a command is executed, its reply is lost with the connection, and the client sends it again
    resent :
        (i : ℕ) (c : Command) (now : String)
        → p.calls i ≡ some c
        → IsLater c
        → Move p (record p { server = (answer P now c p.server).1 })

  pub data Trace (p : Process S) : Process S → Type 0 where
    here : Trace p p
    later : {q r : Process S} → Trace p q → Move q r → Trace p r
