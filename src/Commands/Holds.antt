-- ===== src/Commands/Holds.antt =====
-- What the Redis server holds of an abstract queue, before and after the commands of
-- api/src/services/queue.ts.
use mathlib.Core.Option
use mathlib.Core.List.{reverse-cons}
use mathlib.Core.Path.{subst}
use codehive.Queue.Spec.Redis.Effects.{submit-Stores, merge, get-store}
use codehive.Queue.Spec.Memory.Relation.{AllNamed, AllNamed-tail}
use codehive.Queue.Spec.Redis.Calls.{take_cases}
use codehive.Queue.Memory.{truthy, tail_order}
use codehive.Queue.Service.{fresh_job, truthy_text, job_key, queue_key}
use codehive.Queue.Spec.Redis.Relation.{job_key_ne, Stores}
use codehive.Types.{ExecutionRequest, Job}
use codehive.Queue.Spec.{submit, spec_call, Spec}
use codehive.Prelude.{
  reverse, ap, ◌∙◌, sym, false, some, refl, ◌∷◌, str_eq, ◌≡◌, none, true, Option, [], List, String,
}
use codehive.System.Changes.{overwrite}
use codehive.Queue.Platform.{Platform}
use codehive.Queue.World.{World}

-- a server process with a client of this server
abbrev pub connected : {S : Type 0} → S → World S
connected server = record {
  heap = [];
  mem = record { jobs = []; order = [] };
  redis = true;
  redis_attempted = true;
  redis_host = none;
  server = server;
}

abbrev pub Holds : {S V : Type 0} → Platform S V → S → Spec → Type 0
Holds P server s = Stores P (connected server) s

-- the identifier that waits first
abbrev pub first_id : List String → Option String
first_id [] = none
first_id (id ∷ ids) = some id

module _ {S V : Type 0} (P : Platform S V) where
  pub Stores-Holds : {w : World S} {s : Spec} → Stores P w s → Holds P w.server s
  Stores-Holds h = record { backend = refl; order = h.order; jobs = h.jobs; named = h.named }

module _ {S V : Type 0} (P : Platform S V) {server : S} {s : Spec} (h : Holds P server s) where
  pub add-Holds :
      (id now : String) (request : ExecutionRequest)
      → str_eq id "" ≡ false
      → Holds P
          (P.lpush queue_key id
            (P.set (job_key id) (P.stringify (fresh_job id now request)) server))
          (spec_call (submit id now request) s).1
  add-Holds id now request n = Stores-Holds P (submit-Stores P h id now request n)

  pub pop-Holds : Holds P (P.rpop queue_key server).1 (record s { pending = tail_order s.pending })
  pop-Holds = record {
    backend = refl;
    order = (take_cases P h s.pending refl).1;
    jobs = λ k. P.get-rpop queue_key (job_key k) server (job_key_ne k) ∙ h.jobs k;
    named = AllNamed-tail s.pending h.named;
  }

  pub put-Holds :
      (id : String) (job : Job)
      → Holds P (P.set (job_key id) (P.stringify job) server) (overwrite id job s)
  put-Holds id job = record {
    backend = refl;
    order = P.items-set _ queue_key _ server (λ e. job_key_ne id (sym e)) ∙ h.order;
    jobs = λ k. get-store P id k job server ∙ merge P id k job (s.job k) (h.jobs k);
    named = h.named;
  }

  -- GET of a job's key
  pub get-Holds :
      (id : String) → truthy_text P (P.get (job_key id) server) ≡ Option.map P.stringify (s.job id)
  get-Holds id = ap (truthy_text P) (h.jobs id) ∙ not_blank (s.job id)
    where
      not_blank :
          (o : Option Job) → truthy_text P (Option.map P.stringify o) ≡ Option.map P.stringify o
      not_blank none = refl
      not_blank (some job) = rw P.stringify-ne refl

  -- RPOP of the waiting identifiers
  pub rpop-Holds :
      (ids : List String) → s.pending ≡ ids → truthy (P.rpop queue_key server).0 ≡ first_id ids
  rpop-Holds [] e = rw (P.rpop-empty queue_key server (h.order ∙ ap reverse e)) refl
  rpop-Holds (id ∷ ids) e =
      let named : AllNamed (id ∷ ids) = subst AllNamed e h.named in
      rw
        (
          P.rpop-last queue_key server (reverse ids) id
              (h.order ∙ ap reverse e ∙ reverse-cons id ids),
          named.0,
        )
        refl
