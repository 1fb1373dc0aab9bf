-- ===== src/Commands/Tests.antt =====
-- Interleaved commands on a concrete server.
use codehive.System.Changes.{IsKept}
use codehive.Commands.Overlap.{queued_twice, twice, lost_update}
use codehive.Queue.Memory.{assign}
use codehive.Routes.WorkerApi.{claim}
use codehive.Queue.Tests.{IsFresh-no_store}
use codehive.Queue.Service.{fresh_job, job_key}
use codehive.Queue.Sample
use codehive.Prelude.Dict
use codehive.Commands.Safety.{
  stored_stays, popped_in_turn, popped_once, unreplied, replied, Pop, idle,
}
use codehive.Queue.Sample.{no_store, sample, Store}
use codehive.Routes.Execute.{request_of}
use codehive.Commands.{
  taking, changing, asks, answered, submits, Trace, going_on, popping, adding, at_call, Command,
  answer, Process,
}
use codehive.Prelude.{ap, ◌∙◌, ◌≡◌, none, inr, inl, ◌==◌, refl, Bool-cases, ◌≢◌, String, some, ℕ}
use codehive.Types.{Job, ExecutionRequest}
use codehive.Executor.Tests.{over_redis, over_redis-Stores, job_a, known_a}
use mathlib.Core.Option
use codehive.Commands.{here, later, answered, sends, storing}

abbrev print_one : ExecutionRequest
print_one = request_of "python"

abbrev with_call : ℕ → Command → Process Store → Process Store
with_call i c p = record p { calls = at_call i (some c) p.calls }

abbrev with_reply : ℕ → Command → Process Store → Process Store
with_reply i c p = record {
  server = (answer sample "t" c p.server).1;
  calls = at_call i (going_on (answer sample "t" c p.server).0) p.calls;
}

-- two jobs are added, and one call of `dequeue` waits
abbrev p1 : Process Store
p1 = with_call 0 (adding "a" "t0" print_one) (idle no_store)

abbrev p2 : Process Store
p2 = with_reply 0 (adding "a" "t0" print_one) p1

abbrev p3 : Process Store
p3 = with_call 1 (adding "b" "t1" print_one) p2

abbrev p4 : Process Store
p4 = with_reply 1 (adding "b" "t1" print_one) p3

abbrev p5 : Process Store
p5 = with_call 2 popping p4

abbrev p6 : Process Store
p6 = with_reply 2 popping p5

abbrev p7 : Process Store
p7 = with_call 3 popping p6

-- the reply to the second RPOP is lost, and a third job is added
abbrev p8 : Process Store
p8 = record { server = (answer sample "t" popping p7.server).1; calls = at_call 3 none p7.calls }

abbrev p9 : Process Store
p9 = with_reply 4 (adding "c" "t2" print_one) (with_call 4 (adding "c" "t2" print_one) p8)

abbrev p10 : Process Store
p10 = with_call 5 popping p9

b_is_not_added : (j : ℕ) (at : String) (r : ExecutionRequest) → p2.calls j ≢ some (adding "b" at r)
unfolding answer
b_is_not_added j at r e = elim (Bool-cases (0 == j)) [
  | inl first ↦ cc (rw first at e)
  | inr other ↦ cc (rw other at e)
]

c_is_not_added : (j : ℕ) (at : String) (r : ExecutionRequest) → p8.calls j ≢ some (adding "c" at r)
unfolding answer Dict.get Dict.put Sample.pop_last Sample.items_of Sample.write_items
c_is_not_added j at r e = elim (Bool-cases (3 == j)) [
  | inl third ↦ cc (rw third at e)
  | inr not_third ↦ elim (Bool-cases (2 == j)) [
    | inl second ↦ cc (rw (not_third, second) at e)
    | inr not_second ↦ elim (Bool-cases (1 == j)) [
      | inl first ↦ cc (rw (not_third, not_second, first) at e)
      | inr other ↦ elim (Bool-cases (0 == j)) [
        | inl zeroth ↦ cc (rw (not_third, not_second, other, zeroth) at e)
        | inr none_of_them ↦ cc (rw (not_third, not_second, other, none_of_them) at e)
      ]
    ]
  ]
]

-- a run, and a run behind it
append : {p q r : Process Store} → Trace sample p q → Trace sample q r → Trace sample p r
append first here = first
append first (later rest m) = later (append first rest) m

trace_p2 : Trace sample (idle no_store) p2
unfolding answer Dict.get Dict.put Sample.pop_last Sample.items_of Sample.write_items
trace_p2 =
    later (later here (submits 0 "a" "t0" print_one refl refl refl (λ j at r. cc)))
      (answered 0 (adding "a" "t0" print_one) "t" refl)

more_p5 : Trace sample p2 p5
unfolding answer Dict.get Dict.put Sample.pop_last Sample.items_of Sample.write_items
more_p5 =
    later
      (later (later here (submits 1 "b" "t1" print_one refl refl refl b_is_not_added))
        (answered 1 (adding "b" "t1" print_one) "t" refl))
      (asks 2 refl)

taken_a : Pop sample "a" p5 p6
unfolding answer Dict.get Dict.put Sample.pop_last Sample.items_of Sample.write_items
taken_a = replied 2 "t" refl refl

more_p7 : Trace sample p6 p7
unfolding answer Dict.get Dict.put Sample.pop_last Sample.items_of Sample.write_items
more_p7 = later here (asks 3 refl)

taken_b : Pop sample "b" p7 p8
unfolding answer Dict.get Dict.put Sample.pop_last Sample.items_of Sample.write_items
taken_b = unreplied 3 "t" refl refl

more_p10 : Trace sample p8 p10
unfolding answer Dict.get Dict.put Sample.pop_last Sample.items_of Sample.write_items
more_p10 =
    later
      (later (later here (submits 4 "c" "t2" print_one refl refl refl c_is_not_added))
        (answered 4 (adding "c" "t2" print_one) "t" refl))
      (asks 5 refl)

taken_c : Pop sample "c" p10 (with_reply 5 popping p10)
unfolding answer Dict.get Dict.put Sample.pop_last Sample.items_of Sample.write_items
taken_c = replied 5 "t" refl refl

trace_p5 : Trace sample (idle no_store) p5
trace_p5 = append trace_p2 more_p5

a_stored : sample.get (job_key "a") p2.server ≡ some (fresh_job "a" "t0" print_one)
unfolding answer Dict.get Dict.put Sample.pop_last Sample.items_of Sample.write_items
a_stored = refl

b_not_stored : sample.get (job_key "b") p2.server ≡ none
unfolding answer Dict.get Dict.put Sample.pop_last Sample.items_of Sample.write_items
b_not_stored = refl

up_to_p6 : Trace sample p5 p6
unfolding answer Dict.get Dict.put Sample.pop_last Sample.items_of Sample.write_items
up_to_p6 = later here (answered 2 popping "t" refl)

up_to_p7 : Trace sample p2 p7
up_to_p7 = append more_p5 (append up_to_p6 more_p7)

popped_once_example : ◌≢◌ {A = String} "b" "a"
popped_once_example = popped_once no_store IsFresh-no_store trace_p5 "a" taken_a more_p7 "b" taken_b

popped_in_turn_example : ◌≢◌ {A = String} "c" "a"
popped_in_turn_example =
    popped_in_turn no_store IsFresh-no_store trace_p2 "a" "b" _ a_stored b_not_stored up_to_p7
      taken_b more_p10 "c" taken_c

stored_stays_example :
    (j : Job) × (sample.get (job_key "a") p7.server ≡ some (sample.stringify j)) × IsKept "a" j
stored_stays_example = stored_stays no_store IsFresh-no_store trace_p2 "a" _ a_stored up_to_p7

lost_update_example :
    ((answer sample "t1" (changing "a" (claim "w1")) over_redis.server).0
      ≡ sends (storing "a" (assign (claim "w1") "t1" job_a)))
    × ((answer sample "t2" (changing "a" (claim "w2")) over_redis.server).0
        ≡ sends (storing "a" (assign (claim "w2") "t2" job_a)))
    × (sample.get
          (job_key "a")
          (answer sample "t4"
            (storing "a" (assign (claim "w2") "t2" job_a))
            (answer sample "t3"
              (storing "a" (assign (claim "w1") "t1" job_a))
              over_redis.server).1).1
        ≡ some (sample.stringify (assign (claim "w2") "t2" job_a)))
lost_update_example =
    lost_update sample over_redis.server "a" "t1" "t2" "t3" "t4" (claim "w1") (claim "w2") job_a
      a_over_redis
  where
    a_over_redis : sample.get (job_key "a") over_redis.server ≡ some job_a
    a_over_redis = over_redis-Stores.jobs "a" ∙ ap (Option.map sample.stringify) known_a

queued_twice_example :
    ((answer sample "t2" popping (twice sample "a" "t0" print_one "t1" no_store)).0
      ≡ sends (taking "a"))
    × ((answer sample "t2" popping
          (answer sample "t2" popping (twice sample "a" "t0" print_one "t1" no_store)).1).0
        ≡ sends (taking "a"))
queued_twice_example =
    queued_twice sample no_store "a" "t0" "t1" "t2" print_one refl IsFresh-no_store.no_items
