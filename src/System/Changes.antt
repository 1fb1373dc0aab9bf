-- ===== src/System/Changes.antt =====
-- The steps of the server process on the abstract queue.
use codehive.Routes.WorkerApi.{has_ended}
use codehive.Queue.Memory.{tail_order}
use codehive.Types.{ExecutionResult, ExecutionRequest, Job}
use codehive.Prelude.{
  str_eq, if◌then◌else◌, true, [], some, false, none, ◌⊎◌, ◌≡◌, ◌∷◌, Bool, List, String,
}
use codehive.Queue.Spec.{Spec, spec_write, spec_call, submit}

-- an update of one job as the code makes them: it keeps the identifier, a result that it sets is one of
-- this job and has ended, and a status that has ended comes with a result
pub record IsCareful (id : String) (f : Job → Job) : Type 0 where
  pub same_id : (j : Job) → (f j).id ≡ j.id
  pub result_set :
      (j : Job)
      → ((f j).result ≡ j.result)
        ⊎ ((r : ExecutionResult) × ((f j).result ≡ some r)
            × (r.id ≡ id)
            × (has_ended r.status ≡ true))
  pub ends_with_result :
      (j : Job)
      → (f j).result ≡ none
      → has_ended (f j).status ≡ true
      → (j.result ≡ none) × (has_ended j.status ≡ true)

-- a job as the code stores it: under its own identifier, with a result of this job that has ended, if any,
-- and with a result where its status has ended
pub record IsKept (id : String) (j : Job) : Type 0 where
  pub own : j.id ≡ id
  pub ended : (r : ExecutionResult) → j.result ≡ some r → (r.id ≡ id) × (has_ended r.status ≡ true)
  pub over : has_ended j.status ≡ true → (r : ExecutionResult) × (j.result ≡ some r)

-- a job at one identifier, whatever stood there
abbrev pub overwrite : String → Job → Spec → Spec
overwrite id job s = record s { job = λ k. if str_eq id k then some job else s.job k }

pub data Change (s : Spec) : Spec → Type 0 where
  add :
      (id now : String) (request : ExecutionRequest)
      → s.job id ≡ none
      → Change s (spec_call (submit id now request) s).1
  drop_first : Change s (record s { pending = tail_order s.pending })
  write : (id : String) (f : Job → Job) → IsCareful id f → Change s (spec_write id f s)
  -- the SET of a copy of a known job, whatever the job has become by then
  put :
      (id : String) (j : Job)
      → (i : Job) × (s.job id ≡ some i)
      → IsKept id j
      → Change s (overwrite id j s)
  stay : Change s s

-- a change that is not such a SET
abbrev pub IsWhole : {s t : Spec} → Change s t → Type 0
IsWhole (put id j known good) = ⊥
IsWhole _ = Unit

abbrev pub waits : String → List String → Bool
waits id [] = false
waits id (i ∷ ids) = let rest = waits id ids in if str_eq i id then true else rest

abbrev pub NoTwice : List String → Type 0
NoTwice [] = Unit
NoTwice (i ∷ ids) = (waits i ids ≡ false) × NoTwice ids

-- Every job stands under its own identifier, a waiting identifier names a job and waits once, a result is
-- one of its own job and has ended, and a job whose status has ended has a result.
pub record WellFormed (s : Spec) : Type 0 where
  pub keyed : (k : String) (j : Job) → s.job k ≡ some j → j.id ≡ k
  pub present : (k : String) → waits k s.pending ≡ true → (j : Job) × (s.job k ≡ some j)
  pub once : NoTwice s.pending
  pub ended :
      (k : String) (j : Job) (r : ExecutionResult)
      → s.job k ≡ some j
      → j.result ≡ some r
      → (r.id ≡ k) × (has_ended r.status ≡ true)
  pub over :
      (k : String) (j : Job)
      → s.job k ≡ some j
      → has_ended j.status ≡ true
      → (r : ExecutionResult) × (j.result ≡ some r)
