-- ===== src/Queue/Spec/Agree.antt =====
-- Scripts of calls on the two backends.
use codehive.Queue.Spec.Serves.{Serves, call-Serves}
use codehive.Prelude.{inl, inr}
use codehive.Prelude.Dict.{get}
use codehive.Queue.Memory.{find}
use codehive.Queue.World.{World}
use codehive.Queue.Service.{job_key, names_redis, queue_key}
use codehive.Queue.Platform.{Platform}
use codehive.Queue.Spec.{HasName, spec_run, run, Call, Spec}
use codehive.Prelude.{sym, ◌∙◌, refl, true, false, ◌≡◌, none, ◌∷◌, [], String, Option, List}
use codehive.Queue.Spec.Memory.{Implements}
use codehive.Queue.Spec.Redis.{Stores}

abbrev pub AllHaveName : List Call → Type 0
AllHaveName [] = Unit
AllHaveName (c ∷ cs) = HasName c × AllHaveName cs

-- The process at its start.
abbrev pub started : {S : Type 0} → Option String → S → World S
started host server = record {
  heap = [];
  mem = record { jobs = []; order = [] };
  redis = false;
  redis_attempted = false;
  redis_host = host;
  server = server;
}

abbrev pub no_jobs : Spec
no_jobs = record { pending = []; job = λ k. none }

-- a server that holds nothing under the queue's keys
pub record IsFresh {S V : Type 0} (P : Platform S V) (server : S) : Type 0 where
  pub no_items : P.items queue_key server ≡ []
  pub no_values : (k : String) → P.get (job_key k) server ≡ none

pub started-Implements :
    {S : Type 0} (host : Option String) (server : S)
    → names_redis host ≡ false
    → Implements (started host server) no_jobs
unfolding find get
started-Implements host server off = record {
  backend = off;
  order = refl;
  jobs = λ k. refl;
  named = tt;
  in_bounds = λ k r e. cc;
  apart = λ j k r e f. cc;
}

module _ {S V : Type 0} (P : Platform S V) where
  -- From any state of the queue, over either backend: a script of `enqueue`, `dequeue`, `getJob` and
  -- `updateJob`, whose submissions have identifiers that are not empty, is answered as the specification
  -- answers it.
  pub run-Serves :
      (cs : List Call) {w : World S} {s : Spec}
      → Serves P w s
      → AllHaveName cs
      → run P cs w ≡ spec_run cs s
  unfolding run spec_run
  run-Serves [] h n = refl
  run-Serves (c ∷ cs) h (m, n) =
      let (same, next) = call-Serves P c m h in cc (same, run-Serves cs next n)

  -- With no Redis configured, every script of calls to `enqueue`, `dequeue`, `getJob` and `updateJob`,
  -- with identifiers that are not empty, is answered as the specification answers it from no jobs.
  pub memory_refines :
      (cs : List Call) (host : Option String) (server : S)
      → names_redis host ≡ false
      → AllHaveName cs
      → run P cs (started host server) ≡ spec_run cs no_jobs
  memory_refines cs host server off n = run-Serves cs (inl (started-Implements host server off)) n

  pub started-Stores :
      (host : Option String) (server : S)
      → names_redis host ≡ true
      → IsFresh P server
      → Stores P (started host server) no_jobs
  started-Stores host server on fresh = record {
    backend = on;
    order = fresh.no_items;
    jobs = fresh.no_values;
    named = tt;
  }

  -- With a Redis host named and a server that holds nothing under the queue's keys, every script of calls
  -- to `enqueue`, `dequeue`, `getJob` and `updateJob`, with identifiers that are not empty, is answered as
  -- the specification answers it from no jobs.
  pub redis_refines :
      (cs : List Call) (host : Option String) (server : S)
      → names_redis host ≡ true
      → IsFresh P server
      → AllHaveName cs
      → run P cs (started host server) ≡ spec_run cs no_jobs
  redis_refines cs host server on fresh n =
      run-Serves cs (inr (started-Stores host server on fresh)) n

  -- Scripts of `enqueue`, `dequeue`, `getJob` and `updateJob` get the same answers over memory and over
  -- Redis: where the identifiers are not empty and the server holds nothing under the queue's keys.
  pub backends_agree :
      (cs : List Call) (off on : Option String) (server : S)
      → names_redis off ≡ false
      → names_redis on ≡ true
      → IsFresh P server
      → AllHaveName cs
      → run P cs (started off server) ≡ run P cs (started on server)
  backends_agree cs off on server p q fresh n =
      memory_refines cs off server p n ∙ sym (redis_refines cs on server q fresh n)
