-- ===== src/Executor/Ends.antt =====
-- How the first event that ends a child process decides what `runProcess` of
-- api/src/services/executor.ts answers.
use text.Mathlib.TextLemmas
use codehive.Prelude.Int.{minus_one}
use codehive.Prelude.{ℕ, refl, none, true, ap, some, ◌∙◌, get_or, ◌≡◌, ◌∷◌, ◌++◌, String, List}
use codehive.Executor.Process.{
  callback, broken, failure, stderr_of, timer, stdout_of, close, err, spawned, AllData, ProcResult,
  out, Proc, Event, run_process, on_events, on_event, on_events-append, on_events-data,
  killed-on_events, resolved-on_events, timed_out,
}

-- a process that wrote and goes on
abbrev wrote : (List ℕ → String) → List Event → Proc
wrote decode es = record spawned { stdout = stdout_of decode es; stderr = stderr_of decode es }

abbrev pub IsEnd : Event → Type 0
IsEnd (out d) = ⊥
IsEnd (err d) = ⊥
IsEnd (broken m) = ⊥
IsEnd _ = Unit {0}

-- the answer that an end leads to, behind what was written
abbrev pub end_result : (List ℕ → String) → List Event → Event → ProcResult
end_result decode es (close code) = record {
  stdout = stdout_of decode es;
  stderr = stderr_of decode es;
  exit_code = get_or code minus_one;
  error = none;
}
end_result decode es (failure m) = record {
  stdout = "";
  stderr = m;
  exit_code = minus_one;
  error = some m;
}
end_result decode es _ = timed_out

module _ (decode : List ℕ → String) (es more : List Event) (h : AllData es) where
  after_data :
      (e : Event)
      → on_events decode spawned (es ++ e ∷ more)
        ≡ on_events decode (on_event decode (wrote decode es) e) more
  unfolding on_events
  after_data e =
      on_events-append decode spawned es (e ∷ more)
      ∙ ap (λ p. on_events decode p (e ∷ more)) (on_events-data decode spawned es refl h)
      ∙ rw
          (TextLemmas.nil-append (stdout_of decode es), TextLemmas.nil-append (stderr_of decode es))

  -- When the timer ends first, the process is killed and what it wrote is dropped.
  pub run_process-timer :
      (run_process decode (es ++ timer ∷ more) ≡ some timed_out)
      × ((on_events decode spawned (es ++ timer ∷ more)).killed ≡ true)
  unfolding run_process on_event callback
  run_process-timer = (
    ap (λ (p : Proc). p.resolved) (after_data timer)
        ∙ resolved-on_events decode (on_event decode (wrote decode es) timer) more timed_out refl,
    ap (λ (p : Proc). p.killed) (after_data timer)
        ∙ killed-on_events decode (on_event decode (wrote decode es) timer) more refl,
  )
