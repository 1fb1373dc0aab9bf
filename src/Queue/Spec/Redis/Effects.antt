-- ===== src/Queue/Spec/Redis/Effects.antt =====
-- The world that each call of api/src/services/queue.ts leaves on the Redis backend.
use codehive.Types.{Job, ExecutionRequest}
use codehive.Queue.Spec.{submit, spec_call, ok, Spec}
use codehive.Queue.World.{World}
use codehive.Queue.Service.{
  fresh_job, from_data, popped, get_job, dequeue, enqueue, chosen, job_key, queue_key, get_redis,
}
use codehive.Prelude.{
  refl, inr, inl, ◌∙◌, Bool-cases, if◌then◌else◌, some, Option, [], ◌∷◌, false, ◌++◌, ap, length,
  sym, arith, true, ◌≡◌, str_eq, String,
}
use codehive.Queue.Platform.{Platform}
use mathlib.Core.Option
use codehive.Queue.Spec.Memory.{AllNamed-append}
use mathlib.Core.List.{reverse-append}
use codehive.Queue.Spec.Redis.Relation.{job_key_ne, job_key-eq, Stores}

module _ {S V : Type 0} (P : Platform S V) (w : World S) (b : chosen w ≡ true) where
  pub submit_state :
      (id now : String) (request : ExecutionRequest)
      → enqueue P id now request w ≡ (
        ok (length w.heap),
        record (get_redis w) {
          heap = w.heap ++ fresh_job id now request ∷ [];
          server =
              P.lpush queue_key id
                (P.set (job_key id) (P.stringify (fresh_job id now request)) w.server);
        },
      )
  unfolding enqueue get_redis
  submit_state id now request = rw b

  pub take_next_state :
      dequeue P w
      ≡ popped P
          (P.rpop queue_key w.server).0
          (record (get_redis w) { server = (P.rpop queue_key w.server).1 })
  unfolding dequeue get_redis
  take_next_state = rw b

  pub look_up_state :
      (id : String) → get_job P id w ≡ from_data P (P.get (job_key id) w.server) (get_redis w)
  unfolding get_job get_redis
  look_up_state id = rw b

pub chosen-get_redis : {S : Type 0} (w : World S) → chosen (get_redis w) ≡ chosen w
unfolding get_redis
chosen-get_redis w = ground arith

module _ {S V : Type 0} (P : Platform S V) where
  -- SET of one job's key, read at another
  pub get-store :
      (id k : String) (job : Job) (v : S)
      → P.get (job_key k) (P.set (job_key id) (P.stringify job) v)
        ≡ (if str_eq id k then some (P.stringify job) else P.get (job_key k) v)
  get-store id k job v = rw (P.get-set, job_key-eq)

  pub merge :
      (id k : String) (job : Job) (o : Option Job) {t : Option V}
      → t ≡ Option.map P.stringify o
      → (if str_eq id k then some (P.stringify job) else t)
        ≡ Option.map P.stringify (if str_eq id k then some job else o)
  merge id k job o e = elim (Bool-cases (str_eq id k)) [
    | inl same ↦ rw same refl
    | inr other ↦ rw other e
  ]

module _ {S V : Type 0} (P : Platform S V) {w : World S} {s : Spec} (h : Stores P w s) where
  pub submit-Stores :
      (id now : String) (request : ExecutionRequest)
      → str_eq id "" ≡ false
      → Stores P
          (record (get_redis w) {
            heap = w.heap ++ fresh_job id now request ∷ [];
            server =
                P.lpush queue_key id
                  (P.set (job_key id) (P.stringify (fresh_job id now request)) w.server);
          })
          (spec_call (submit id now request) s).1
  unfolding spec_call get_redis
  submit-Stores id now request n = record {
    backend = ground (arith, h.backend);
    order =
        P.items-lpush queue_key id _
        ∙ ap (λ l. id ∷ l)
            (P.items-set _ queue_key _ w.server (λ e. job_key_ne id (sym e)) ∙ h.order)
        ∙ sym (reverse-append s.pending (id ∷ []));
    jobs = λ k.
        P.get-lpush queue_key (job_key k) id _ (job_key_ne k)
        ∙ get-store P id k (fresh_job id now request) w.server
        ∙ merge P id k (fresh_job id now request) (s.job k) (h.jobs k);
    named = AllNamed-append s.pending id h.named n;
  }
