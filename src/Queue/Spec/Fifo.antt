-- ===== src/Queue/Spec/Fifo.antt =====
-- The order in which jobs are handed out.
use mathlib.Core.List.{append_assoc, append-nil}
use codehive.Queue.Memory.{tail_order}
use codehive.Queue.Service.{names_redis, fresh_job}
use codehive.Types.{Job, ExecutionRequest}
use codehive.Queue.Platform.{Platform}
use codehive.Queue.Spec.{run, saw, take_next, submit, Spec, Answer, Call, spec_call, spec_run}
use codehive.Prelude.{
  inr, inl, Bool-cases, eq_refl, refl, sym, ap, false, some, ◌∙◌, ◌≡◌, str_eq, [], ◌++◌, Option,
  ◌∷◌, List, String,
}
use codehive.Queue.Spec.Agree.{
  AllHaveName, started, no_jobs, IsFresh, memory_refines, redis_refines,
}

-- the arguments of a call of `enqueue`
pub record Submission : Type 0 where
  pub id : String
  pub now : String
  pub request : ExecutionRequest

abbrev pub submissions : List Submission → List Call
submissions [] = []
submissions (r ∷ rs) = submit r.id r.now r.request ∷ submissions rs

abbrev pub takes : List Submission → List Call
takes [] = []
takes (r ∷ rs) = take_next ∷ takes rs

abbrev pub answers : List Submission → List Answer
answers [] = []
answers (r ∷ rs) = saw (some (fresh_job r.id r.now r.request)) ∷ answers rs

abbrev pub ids : List Submission → List String
ids [] = []
ids (r ∷ rs) = r.id ∷ ids rs

-- no identifier stands twice
abbrev pub IsAbsent : String → List Submission → Type 0
IsAbsent id [] = Unit
IsAbsent id (r ∷ rs) = (str_eq id r.id ≡ false) × (str_eq r.id id ≡ false) × IsAbsent id rs

abbrev pub AreDistinct : List Submission → Type 0
AreDistinct [] = Unit
AreDistinct (r ∷ rs) = (str_eq r.id "" ≡ false) × IsAbsent r.id rs × AreDistinct rs

-- the specification's state behind a run
spec_after : List Call → Spec → Spec
spec_after [] s = s
spec_after (c ∷ cs) s = spec_after cs (spec_call c s).1

spec_run-append :
    (xs ys : List Call) (s : Spec)
    → spec_run (xs ++ ys) s ≡ spec_run xs s ++ spec_run ys (spec_after xs s)
unfolding spec_run spec_after
spec_run-append [] ys s = refl
spec_run-append (c ∷ xs) ys s =
    ap (λ l. (spec_call c s).0 ∷ l) (spec_run-append xs ys (spec_call c s).1)

spec_run-submissions : (rs : List Submission) (s : Spec) → spec_run (submissions rs) s ≡ answers rs
unfolding spec_run
spec_run-submissions [] s = refl
spec_run-submissions (r ∷ rs) s =
    ap (λ l. saw (some (fresh_job r.id r.now r.request)) ∷ l) (spec_run-submissions rs _)

pending-spec_after :
    (rs : List Submission) (s : Spec)
    → (spec_after (submissions rs) s).pending ≡ s.pending ++ ids rs
unfolding spec_after spec_call
pending-spec_after [] s = sym (append-nil s.pending)
pending-spec_after (r ∷ rs) s =
    pending-spec_after rs (spec_call (submit r.id r.now r.request) s).1
    ∙ append_assoc s.pending (r.id ∷ []) (ids rs)

job-spec_after_absent :
    (id : String) (rs : List Submission) (s : Spec)
    → IsAbsent id rs
    → (spec_after (submissions rs) s).job id ≡ s.job id
unfolding spec_after spec_call
job-spec_after_absent id [] s h = refl
job-spec_after_absent id (r ∷ rs) s h = job-spec_after_absent id rs _ h.2 ∙ rw h.1

-- each identifier names its submission
abbrev Holds : (String → Option Job) → List Submission → Type 0
Holds job [] = Unit
Holds job (r ∷ rs) = (job r.id ≡ some (fresh_job r.id r.now r.request)) × Holds job rs

Holds-spec_after :
    (rs : List Submission) (s : Spec)
    → AreDistinct rs
    → Holds (spec_after (submissions rs) s).job rs
unfolding spec_after spec_call
Holds-spec_after [] s h = tt
Holds-spec_after (r ∷ rs) s (named, absent, distinct) =
    (job-spec_after_absent r.id rs _ absent ∙ rw (eq_refl r.id), Holds-spec_after rs _ distinct)

spec_run-takes :
    (rs : List Submission) (s : Spec)
    → s.pending ≡ ids rs
    → Holds s.job rs
    → spec_run (takes rs) s ≡ answers rs
unfolding spec_run
spec_run-takes [] s e h = refl
spec_run-takes (r ∷ rs) s e (here, later) = cc (
  take_one,
  spec_run-takes rs (spec_call take_next s).1 (unfold spec_call in ap tail_order e)
      (unfold spec_call in later),
)
  where
    take_one : (spec_call take_next s).0 ≡ saw (some (fresh_job r.id r.now r.request))
    take_one = unfold spec_call in rw (e, here)

fifo :
    (rs : List Submission)
    → AreDistinct rs
    → spec_run (submissions rs ++ takes rs) no_jobs ≡ answers rs ++ answers rs
fifo rs h =
    spec_run-append (submissions rs) (takes rs) no_jobs
    ∙ cc (
      spec_run-submissions rs no_jobs,
      spec_run-takes rs (spec_after (submissions rs) no_jobs) (pending-spec_after rs no_jobs)
          (Holds-spec_after rs no_jobs h),
    )

AllHaveName-submissions :
    (rs qs : List Submission) → AreDistinct rs → AllHaveName (submissions rs ++ takes qs)
AllHaveName-submissions [] [] h = tt
AllHaveName-submissions [] (q ∷ qs) h = (tt, AllHaveName-submissions [] qs tt)
AllHaveName-submissions (r ∷ rs) qs (named, absent, distinct) =
    (named, AllHaveName-submissions rs qs distinct)

module _ {S V : Type 0} (P : Platform S V) where
  -- Jobs submitted with distinct identifiers that are not empty, and then taken as often, are handed
  -- out as they were submitted and in that order, each once: over memory, and over a Redis server that
  -- held nothing under the queue's keys.
  pub handed_out_in_order :
      (rs : List Submission) (host : Option String) (server : S)
      → IsFresh P server
      → AreDistinct rs
      → run P (submissions rs ++ takes rs) (started host server) ≡ answers rs ++ answers rs
  handed_out_in_order rs host server fresh h = elim (Bool-cases (names_redis host)) [
    | inl on ↦ redis_refines P _ host server on fresh (AllHaveName-submissions rs rs h) ∙ fifo rs h
    | inr off ↦ memory_refines P _ host server off (AllHaveName-submissions rs rs h) ∙ fifo rs h
  ]
