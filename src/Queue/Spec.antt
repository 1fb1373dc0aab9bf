-- ===== src/Queue/Spec.antt =====
-- What the queue promises, whichever backend keeps it: identifiers wait in the order of `enqueue`, and
-- each names a job. A script of calls runs over the specification and over the exported functions of
-- api/src/services/queue.ts, with what a caller sees of each call.
pub mod Memory
pub mod Redis
pub mod Agree
pub mod Fifo
pub mod Results
pub mod Serves
use mathlib.Core.Option
use codehive.Prelude.{
  refl, false, ◌≡◌, Option, none, some, String, List, [], ◌∷◌, ◌++◌, str_eq, if◌then◌else◌,
}
use codehive.Prelude.Exec.{Result, ok, throw}
use codehive.Types.{Job, ExecutionRequest}
use codehive.Errors.{Error, plain}
use codehive.Queue.Platform.{Platform}
use codehive.Queue.World.{World, Ref, load}
use codehive.Queue.Memory.{JobUpdates, assign, job_not_found, tail_order}
use codehive.Queue.Service.{fresh_job, enqueue, dequeue, get_job, update_job}

pub record Spec : Type 0 where
  pub pending : List String
  pub job : String → Option Job

pub data Call : Type 0 where
  submit : String → String → ExecutionRequest → Call
  take_next : Call
  look_up : String → Call
  change : String → String → JobUpdates → Call

-- what a caller sees: a job (or null), no value, or a thrown error
pub data Answer : Type 0 where
  saw : Option Job → Answer
  done : Answer
  failed : Error → Answer

abbrev pub first_pending : List String → (String → Option Job) → Option Job
first_pending [] job = none
first_pending (id ∷ rest) job = job id

abbrev pub changed : Option Job → String → Answer
changed none id = failed (plain (job_not_found id))
changed (some job) id = done

-- the jobs behind a write to the job of one identifier
abbrev pub spec_write : String → (Job → Job) → Spec → Spec
spec_write id f s = record s { job = λ k. if str_eq id k then Option.map f (s.job k) else s.job k }

unfoldable pub spec_call : Call → Spec → Answer × Spec
spec_call (submit id now request) s = (
  saw (some (fresh_job id now request)),
  record {
    pending = s.pending ++ id ∷ [];
    job = λ k. if str_eq id k then some (fresh_job id now request) else s.job k;
  },
)
spec_call take_next s =
    (saw (first_pending s.pending s.job), record s { pending = tail_order s.pending })
spec_call (look_up id) s = (saw (s.job id), s)
spec_call (change now id updates) s = (changed (s.job id) id, spec_write id (assign updates now) s)

abbrev pub seen_unit : Result Error (Unit {0}) → Answer
seen_unit (ok u) = done
seen_unit (throw e) = failed e

module _ {S : Type 0} where
  -- the job behind what a function returned, in the state that it left
  abbrev pub seen : Result Error (Option Ref) → World S → Answer
  seen (ok none) w = saw none
  seen (ok (some r)) w = saw (load w r)
  seen (throw e) w = failed e

  abbrev pub seen_ref : Result Error Ref → World S → Answer
  seen_ref (ok r) w = saw (load w r)
  seen_ref (throw e) w = failed e

module _ {S V : Type 0} (P : Platform S V) where
  unfoldable pub call : Call → World S → Answer × World S
  call (submit id now request) w = let (r, w') = enqueue P id now request w in (seen_ref r w', w')
  call take_next w = let (r, w') = dequeue P w in (seen r w', w')
  call (look_up id) w = let (r, w') = get_job P id w in (seen r w', w')
  call (change now id updates) w = let (r, w') = update_job P now id updates w in (seen_unit r, w')

  unfoldable pub run : List Call → World S → List Answer
  unfolding call
  run [] w = []
  run (c ∷ cs) w = let (a, w') = call c w in a ∷ run cs w'

unfoldable pub spec_run : List Call → Spec → List Answer
unfolding spec_call
spec_run [] s = []
spec_run (c ∷ cs) s = let (a, s') = spec_call c s in a ∷ spec_run cs s'

-- identifiers are UUIDs: none is the empty text
abbrev pub HasName : Call → Type 0
HasName (submit id now request) = str_eq id "" ≡ false
HasName _ = Unit {0}

pub seen_unit-done : (r : Result Error (Unit {0})) → seen_unit r ≡ done → r ≡ ok tt
seen_unit-done (ok u) h = refl
seen_unit-done (throw e) h = cc

-- A function returned null, or an object that is there and holds the job.
abbrev pub IsFound : {S : Type 0} → Result Error (Option Ref) → World S → Option Job → Type 0
IsFound r w none = r ≡ ok none
IsFound r w (some job) = (q : Ref) × (r ≡ ok (some q)) × (load w q ≡ some job)

pub seen_ref-some :
    {S : Type 0} (r : Result Error Ref) (w : World S) (job : Job)
    → seen_ref r w ≡ saw (some job)
    → (q : Ref) × (r ≡ ok q) × (load w q ≡ some job)
seen_ref-some (ok q) w job h = (q, refl, cc)
seen_ref-some (throw e) w job h = cc
