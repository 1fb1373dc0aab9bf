-- ===== src/Queue/Spec/Redis/Relation.antt =====
-- What the Redis server of api/src/services/queue.ts holds of an abstract state.
use codehive.Queue.Spec.{Spec}
use codehive.Queue.World.{World}
use codehive.Queue.Service.{chosen, job_key, queue_key}
use codehive.Prelude.{ap, eq_iff, sym, reverse, arith, true, ◌≡◌, ◌≢◌, str_eq, String}
use codehive.Queue.Platform.{Platform}
use mathlib.Core.Option
use codehive.Queue.Spec.Memory.{AllNamed}
use mathlib.Core.Path.{subst}
use text.Mathlib.Text.{starts_with}
use text.Mathlib.TextPositions.{starts_with-append}
use text.Mathlib.TextLemmas.{append_cancel_left}
use codehive.Prelude.{false≢true}

-- The list at `codehive:queue` holds the waiting identifiers, the latest first, and the key of each
-- identifier holds the text of its job.
pub record Stores {S V : Type 0} (P : Platform S V) (w : World S) (s : Spec) : Type 0 where
  pub backend : chosen w ≡ true
  pub order : P.items queue_key w.server ≡ reverse s.pending
  pub jobs : (k : String) → P.get (job_key k) w.server ≡ Option.map P.stringify (s.job k)
  pub named : AllNamed s.pending

pub job_key_ne : (id : String) → queue_key ≢ job_key id
job_key_ne id e = false≢true (
    subst (λ k. starts_with k "codehive:job:" ≡ true) (sym e)
      (starts_with-append "codehive:job:" id))

pub job_key-eq : (a b : String) → str_eq (job_key a) (job_key b) ≡ str_eq a b
job_key-eq a b = ground (
  arith,
  eq_iff a b,
  eq_iff (job_key a) (job_key b),
  append_cancel_left "codehive:job:" a b,
  λ (p : a ≡ b). ap job_key p,
)
