-- ===== src/Executor/Process.antt =====
-- `runProcess` of api/src/services/executor.ts: the callbacks of a child process and of its timer, over
-- the sequence of events that Node delivers. A promise keeps the first value that it is resolved with.
-- The streams deliver chunks of bytes; `Buffer.toString()` of one chunk, which decodes UTF-8, is an
-- argument, since Node's code is not in the repository.
use codehive.Prelude.Int.{ℤ, minus_one}
use codehive.Prelude.{
  inr, inl, Bool-cases, ℕ, refl, ◌∙◌, ap, arith, [], get_or, none, ◌++◌, ◌∷◌, some, false, Bool,
  ◌≡◌, List, if◌then◌else◌, Option, true, String,
}
use Prim.Native.String.{◌++◌ as str_append}
use text.Mathlib.TextLemmas

pub record ProcResult : Type 0 where
  pub stdout : String
  pub stderr : String
  pub exit_code : ℤ
  pub error : Option String

-- a chunk on a stream, the timer's end, the end of the process with its code (null where a signal ended
-- it), a failure to spawn it, and an error of the stream that its input is written to (EPIPE, where it does
-- not read), for which there is no listener
pub data Event : Type 0 where
  out : List ℕ → Event
  err : List ℕ → Event
  broken : String → Event
  timer : Event
  close : Option ℤ → Event
  failure : String → Event

pub record Proc : Type 0 where
  pub stdout : String
  pub stderr : String
  -- the timer is set
  pub timing : Bool
  -- `SIGKILL` was sent
  pub killed : Bool
  pub resolved : Option ProcResult
  -- an error that nobody listened for has ended the server process
  pub crashed : Bool

abbrev pub spawned : Proc
spawned = record {
  stdout = "";
  stderr = "";
  timing = true;
  killed = false;
  resolved = none;
  crashed = false;
}

abbrev pub timed_out : ProcResult
timed_out = record {
  stdout = "";
  stderr = "Process killed: timeout exceeded";
  exit_code = minus_one;
  error = some "timeout";
}

-- `resolve(r)`
abbrev pub resolve : Option ProcResult → ProcResult → Option ProcResult
resolve none r = some r
resolve (some old) r = some old

-- One callback. A timer that was cleared does not call back.
unfoldable pub callback : (List ℕ → String) → Proc → Event → Proc
callback decode p (out d) = record p { stdout = str_append p.stdout (decode d) }
callback decode p (err d) = record p { stderr = str_append p.stderr (decode d) }
callback decode p (broken m) = record p { crashed = true }
callback decode p timer =
    if p.timing
    then record p { timing = false; killed = true; resolved = resolve p.resolved timed_out }
    else p
callback decode p (close code) = record p {
  timing = false;
  resolved = resolve p.resolved (record {
    stdout = p.stdout;
    stderr = p.stderr;
    exit_code = get_or code minus_one;
    error = none;
  });
}
callback decode p (failure m) = record p {
  timing = false;
  resolved =
      resolve p.resolved
        (record { stdout = ""; stderr = m; exit_code = minus_one; error = some m });
}

-- Behind a crash there is no process to call back.
unfoldable pub on_event : (List ℕ → String) → Proc → Event → Proc
unfolding callback
on_event decode p e = if p.crashed then p else callback decode p e

unfoldable pub on_events : (List ℕ → String) → Proc → List Event → Proc
unfolding on_event
on_events decode p [] = p
on_events decode p (e ∷ es) = on_events decode (on_event decode p e) es

-- what the promise holds after the events; `none` while it is pending
unfoldable pub run_process : (List ℕ → String) → List Event → Option ProcResult
unfolding on_events
run_process decode es = (on_events decode spawned es).resolved

abbrev pub IsData : Event → Type 0
IsData (out d) = Unit {0}
IsData (err d) = Unit {0}
IsData _ = ⊥

abbrev pub AllData : List Event → Type 0
AllData [] = Unit
AllData (e ∷ es) = IsData e × AllData es

-- the text of a stream: that of its chunks, each decoded on its own
unfoldable pub stdout_of : (List ℕ → String) → List Event → String
stdout_of decode [] = ""
stdout_of decode (out d ∷ es) = str_append (decode d) (stdout_of decode es)
stdout_of decode (_ ∷ es) = stdout_of decode es

unfoldable pub stderr_of : (List ℕ → String) → List Event → String
stderr_of decode [] = ""
stderr_of decode (err d ∷ es) = str_append (decode d) (stderr_of decode es)
stderr_of decode (_ ∷ es) = stderr_of decode es

module _ (decode : List ℕ → String) where
  resolved-callback :
      (p : Proc) (e : Event) (r : ProcResult)
      → p.resolved ≡ some r
      → (callback decode p e).resolved ≡ some r
  unfolding callback
  resolved-callback p (out d) r h = h
  resolved-callback p (err d) r h = h
  resolved-callback p (broken m) r h = h
  resolved-callback p _ r h = ground arith

  still : (p : Proc) (e : Event) → p.crashed ≡ false → on_event decode p e ≡ callback decode p e
  unfolding on_event
  still p e c = rw c refl

  crash_stays : (p : Proc) (e : Event) → p.crashed ≡ true → on_event decode p e ≡ p
  unfolding on_event
  crash_stays p e c = rw c refl

  resolved-on_event :
      (p : Proc) (e : Event) (r : ProcResult)
      → p.resolved ≡ some r
      → (on_event decode p e).resolved ≡ some r
  resolved-on_event p e r h = elim (Bool-cases p.crashed) [
    | inl c ↦ ap (λ (q : Proc). q.resolved) (crash_stays p e c) ∙ h
    | inr c ↦ ap (λ (q : Proc). q.resolved) (still p e c) ∙ resolved-callback p e r h
  ]

  pub resolved-on_events :
      (p : Proc) (es : List Event) (r : ProcResult)
      → p.resolved ≡ some r
      → (on_events decode p es).resolved ≡ some r
  unfolding on_events
  resolved-on_events p [] r h = h
  resolved-on_events p (e ∷ es) r h =
      resolved-on_events (on_event decode p e) es r (resolved-on_event p e r h)

  pub on_events-append :
      (p : Proc) (xs ys : List Event)
      → on_events decode p (xs ++ ys) ≡ on_events decode (on_events decode p xs) ys
  unfolding on_events
  on_events-append p [] ys = refl
  on_events-append p (x ∷ xs) ys = on_events-append (on_event decode p x) xs ys

  -- The result of a process is final: no later event, such as the end of a process that was killed,
  -- changes it.
  pub run_process_final :
      (es more : List Event) (r : ProcResult)
      → run_process decode es ≡ some r
      → run_process decode (es ++ more) ≡ some r
  unfolding run_process
  run_process_final es more r h =
      ap (λ (p : Proc). p.resolved) (on_events-append spawned es more)
      ∙ resolved-on_events (on_events decode spawned es) more r h

  pub on_events-data :
      (p : Proc) (es : List Event)
      → p.crashed ≡ false
      → AllData es
      → on_events decode p es ≡ record p {
        stdout = str_append p.stdout (stdout_of decode es);
        stderr = str_append p.stderr (stderr_of decode es);
      }
  unfolding on_events on_event callback stdout_of stderr_of
  on_events-data p [] c h = rw (TextLemmas.append-nil p.stdout, TextLemmas.append-nil p.stderr)
  on_events-data p (out d ∷ es) c h =
      ap (λ q. on_events decode q es) (still p (out d) c)
      ∙ on_events-data (callback decode p (out d)) es c h.1
      ∙ rw (TextLemmas.append_assoc p.stdout (decode d) (stdout_of decode es))
  on_events-data p (err d ∷ es) c h =
      ap (λ q. on_events decode q es) (still p (err d) c)
      ∙ on_events-data (callback decode p (err d)) es c h.1
      ∙ rw (TextLemmas.append_assoc p.stderr (decode d) (stderr_of decode es))
  on_events-data p (_ ∷ es) c h = absurd h.0

  killed-callback : (p : Proc) (e : Event) → p.killed ≡ true → (callback decode p e).killed ≡ true
  unfolding callback
  killed-callback p (out d) h = h
  killed-callback p (err d) h = h
  killed-callback p (broken m) h = h
  killed-callback p _ h = ground arith

  pub killed-on_events :
      (p : Proc) (es : List Event) → p.killed ≡ true → (on_events decode p es).killed ≡ true
  unfolding on_events on_event
  killed-on_events p [] h = h
  killed-on_events p (e ∷ es) h = killed-on_events (on_event decode p e) es kept
    where
      kept : (on_event decode p e).killed ≡ true
      kept = elim (Bool-cases p.crashed) [
        | inl c ↦ ap (λ (q : Proc). q.killed) (crash_stays p e c) ∙ h
        | inr c ↦ ap (λ (q : Proc). q.killed) (still p e c) ∙ killed-callback p e h
      ]
