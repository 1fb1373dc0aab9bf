-- ===== src/Queue/Tests.antt =====
-- The theorems on the queue at concrete inputs, and runs of it.
use codehive.Queue.Spec.{look_up, take_next, spec_run, change, submit, Call, run}
use codehive.Prelude.{inr, refl, ◌≡◌, ◌++◌, ◌∷◌, some, none, [], List}
use codehive.Queue.Memory.{JobUpdates}
use codehive.Types.{running, ExecutionRequest}
use codehive.Prelude.Dict
use codehive.Queue.Sample.{items_of, sample, no_store}
use codehive.Queue.Spec.Agree.{
  AllHaveName, started, no_jobs, IsFresh, run-Serves, started-Stores, backends_agree,
}
use codehive.Queue.Spec.Fifo.{Submission, submissions, takes, answers, handed_out_in_order}

abbrev pub print_one : ExecutionRequest
print_one = record {
  image = "";
  cmd = [];
  env = some (("CODEHIVE_LANG", "python") ∷ []);
  timeout = none;
  memory = none;
  cpus = none;
}

abbrev claim : JobUpdates
claim = record {
  id = none;
  payload = none;
  status = some running;
  worker_id = some (some "w1");
  created_at = none;
  result = none;
}

abbrev script : List Call
script =
    submit "a" "t0" print_one
    ∷ change "t1" "a" claim
    ∷ take_next
    ∷ look_up "a"
    ∷ change "t2" "b" claim
    ∷ take_next
    ∷ []

pub IsFresh-no_store : IsFresh sample no_store
unfolding items_of Dict.get
IsFresh-no_store = record { no_items = refl; no_values = λ k. refl }

named_script : AllHaveName script
named_script = (refl, (tt, (tt, (tt, (tt, (tt, tt))))))

run-Serves_example : run sample script (started (some "cache") no_store) ≡ spec_run script no_jobs
run-Serves_example =
    run-Serves sample script
      (inr (started-Stores sample (some "cache") no_store refl IsFresh-no_store)) named_script

backends_agree_example :
    run sample script (started none no_store) ≡ run sample script (started (some "cache") no_store)
backends_agree_example =
    backends_agree sample script none (some "cache") no_store refl refl IsFresh-no_store
      named_script

abbrev two : List Submission
two =
    record { id = "a"; now = "t0"; request = print_one }
    ∷ record { id = "b"; now = "t1"; request = print_one }
    ∷ []

handed_out_in_order_example :
    run sample (submissions two ++ takes two) (started (some "cache") no_store)
    ≡ answers two ++ answers two
handed_out_in_order_example =
    handed_out_in_order sample two (some "cache") no_store IsFresh-no_store
      (refl, (refl, refl, tt), (refl, tt, tt))
