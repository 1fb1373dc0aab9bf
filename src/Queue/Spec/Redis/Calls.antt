-- ===== src/Queue/Spec/Redis/Calls.antt =====
-- The calls of api/src/services/queue.ts on the Redis backend do what the specification says.
use codehive.Prelude.Exec.{continue}
use codehive.Queue.Memory.{assign, JobUpdates, tail_order}
use codehive.Types.{Job}
use codehive.Queue.Spec.{
  changed, seen_unit-done, spec_write, look_up, HasName, Call, change, first_pending, call,
  take_next, saw, seen, submit, spec_call, ok, Spec,
}
use codehive.Queue.World.{get_elem?-modify_at_self, modify, Ref, new_job, Action, World}
use codehive.Queue.Service.{
  update_found, update_job, fresh_job, from_data, get_job, dequeue, job_key, queue_key, get_redis,
}
use codehive.Prelude.{
  List, refl, get_elem?-append_end, inr, inl, ◌∙◌, Bool-cases, if◌then◌else◌, some, none, Option,
  [], ◌∷◌, ◌++◌, ap, length, eq_iff, sym, reverse, arith, ◌≡◌, str_eq, String,
}
use codehive.Queue.Platform.{Platform}
use mathlib.Core.Option
use codehive.Queue.Spec.Memory.{AllNamed-tail, AllNamed}
use mathlib.Core.Path.{subst}
use mathlib.Core.List.{reverse-cons}
use codehive.Queue.Spec.Redis.Relation.{job_key_ne, Stores}
use codehive.Queue.Spec.Redis.Effects.{
  submit_state, take_next_state, look_up_state, chosen-get_redis, get-store, submit-Stores,
}

-- what a read of an identifier's key leads to
abbrev pub loaded : {S : Type 0} → Option Job → Action S (Option Ref)
loaded none w = (ok none, w)
loaded (some job) w = (ok (some (length w.heap)), record w { heap = w.heap ++ job ∷ [] })

from_data-eq :
    {S V : Type 0} (P : Platform S V) (o : Option Job) (w : World S)
    → from_data P (Option.map P.stringify o) w ≡ loaded o w
unfolding new_job
from_data-eq P none w = refl
from_data-eq P (some job) w = rw (P.stringify-ne, P.parse-stringify)

module _ {S V : Type 0} (P : Platform S V) {w : World S} {s : Spec} (h : Stores P w s) where
  -- the world after a call that may have loaded an object
  pub loaded-Stores :
      {t : Spec} {v : World S} (o : Option Job) → Stores P v t → Stores P (loaded o v).1 t
  loaded-Stores none k = k
  loaded-Stores (some job) k = record {
    backend = k.backend;
    order = k.order;
    jobs = k.jobs;
    named = k.named;
  }

  seen-loaded : (o : Option Job) (v : World S) → seen (loaded o v).0 (loaded o v).1 ≡ saw o
  seen-loaded none v = refl
  seen-loaded (some job) v = ap saw (get_elem?-append_end v.heap job)

  pub look_up-Stores : Stores P (get_redis w) s
  unfolding get_redis
  look_up-Stores = record {
    backend = ground (arith, h.backend);
    order = h.order;
    jobs = h.jobs;
    named = h.named;
  }

  pub look_up_loaded : (id : String) → get_job P id w ≡ loaded (s.job id) (get_redis w)
  look_up_loaded id =
      rw (look_up_state P w h.backend id, h.jobs id) (from_data-eq P (s.job id) (get_redis w))

  pub take_cases :
      (ids : List String)
      → s.pending ≡ ids
      → (dequeue P w
          ≡ loaded
              (first_pending ids s.job)
              (record (get_redis w) { server = (P.rpop queue_key w.server).1 }))
        × (P.items queue_key (P.rpop queue_key w.server).1 ≡ reverse (tail_order ids))
  take_cases [] e =
      let empty = h.order ∙ ap reverse e in
      (
        rw (take_next_state P w h.backend, P.rpop-empty queue_key w.server empty),
        P.items-rpop_empty queue_key w.server empty,
      )
  take_cases (id ∷ ids) e =
      let last = h.order ∙ ap reverse e ∙ reverse-cons id ids in
      let named : AllNamed (id ∷ ids) = subst AllNamed e h.named in
      (
        rw
            (
              take_next_state P w h.backend,
              P.rpop-last queue_key w.server (reverse ids) id last,
              named.0,
              P.get-rpop queue_key (job_key id) w.server (job_key_ne id),
              h.jobs id,
            )
            (from_data-eq P (s.job id) _),
        P.items-rpop_last queue_key w.server (reverse ids) id last,
      )

  take_next-Stores :
      Stores P
        (record (get_redis w) { server = (P.rpop queue_key w.server).1 })
        (spec_call take_next s).1
  unfolding spec_call get_redis
  take_next-Stores = record {
    backend = ground (arith, h.backend);
    order = (take_cases s.pending refl).1;
    jobs = λ k. P.get-rpop queue_key (job_key k) w.server (job_key_ne k) ∙ h.jobs k;
    named = AllNamed-tail s.pending h.named;
  }

  -- SET of the changed job
  pub stored-Stores :
      (id : String) (f : Job → Job) (job : Job) (heap : List Job)
      → s.job id ≡ some job
      → Stores P
          (record (get_redis (get_redis w)) {
            heap = heap;
            server = P.set (job_key id) (P.stringify (f job)) w.server;
          })
          (spec_write id f s)
  unfolding get_redis
  stored-Stores id f job heap e = record {
    backend = ground (arith, h.backend);
    order = P.items-set _ queue_key _ w.server (λ f. job_key_ne id (sym f)) ∙ h.order;
    jobs = λ k. get-store P id k (f job) w.server ∙ at_key k;
    named = h.named;
  }
    where
      at_key :
          (k : String)
          → (if str_eq id k then some (P.stringify (f job)) else P.get (job_key k) w.server)
            ≡ Option.map P.stringify (if str_eq id k then Option.map f (s.job k) else s.job k)
      at_key k = elim (Bool-cases (str_eq id k)) [
        | inl same ↦ rw (same, ← (eq_iff id k).0 same, e)
        | inr other ↦ rw other (h.jobs k)
      ]

  unchanged-Stores :
      (now id : String) (u : JobUpdates)
      → s.job id ≡ none
      → Stores P (get_redis (get_redis w)) (spec_call (change now id u) s).1
  unfolding spec_call get_redis
  unchanged-Stores now id u e = record {
    backend = ground (arith, h.backend);
    order = h.order;
    jobs = λ k. h.jobs k ∙ ap (Option.map P.stringify) (at_key k);
    named = h.named;
  }
    where
      at_key :
          (k : String)
          → s.job k ≡ (if str_eq id k then Option.map (assign u now) (s.job k) else s.job k)
      at_key k = elim (Bool-cases (str_eq id k)) [
        | inl same ↦ rw (same, ← (eq_iff id k).0 same, e)
        | inr other ↦ rw other
      ]

  pub update_state :
      (now id : String) (u : JobUpdates)
      → update_job P now id u w
        ≡ continue
            (get_job P id (get_redis w)).0
            (update_found P now id u)
            (get_job P id (get_redis w)).1
  unfolding update_job
  update_state now id u = rw h.backend

  pub loaded_again :
      (id : String) → get_job P id (get_redis w) ≡ loaded (s.job id) (get_redis (get_redis w))
  loaded_again id =
      rw (look_up_state P (get_redis w) (chosen-get_redis w ∙ h.backend) id)
        (unfold get_redis in rw (h.jobs id) (from_data-eq P (s.job id) (get_redis (get_redis w))))

  -- `updateJob` where the job is missing, and where it is there
  change_cases :
      (now id : String) (u : JobUpdates) (o : Option Job)
      → s.job id ≡ o
      → ((call P (change now id u) w).0 ≡ (spec_call (change now id u) s).0)
        × Stores P (call P (change now id u) w).1 (spec_call (change now id u) s).1
  unfolding call modify
  change_cases now id u none e =
      rw (update_state now id u, loaded_again id, e)
        ((unfold spec_call in rw e), unchanged-Stores now id u e)
  change_cases now id u (some job) e =
      rw (update_state now id u, loaded_again id, e, get_elem?-modify_at_self, get_elem?-append_end)
        (
          (unfold spec_call in rw e),
          (unfold get_redis spec_call in stored-Stores id (assign u now) job _ e),
        )

  -- Where the Redis server stores what the abstract state says, one call answers as the specification
  -- does and leaves a server that stores the state after; a submitted job has an identifier that is not
  -- empty.
  pub call-Stores :
      (c : Call)
      → HasName c
      → ((call P c w).0 ≡ (spec_call c s).0) × Stores P (call P c w).1 (spec_call c s).1
  unfolding call
  call-Stores (submit id now request) n = rw (submit_state P w h.backend id now request) (
    (unfold spec_call in ap saw (get_elem?-append_end w.heap (fresh_job id now request))),
    submit-Stores P h id now request n,
  )
  call-Stores take_next n = rw (take_cases s.pending refl).0 (
    (unfold spec_call in seen-loaded (first_pending s.pending s.job) _),
    loaded-Stores (first_pending s.pending s.job) take_next-Stores,
  )
  call-Stores (look_up id) n = rw (look_up_loaded id) (
    (unfold spec_call in seen-loaded (s.job id) _),
    (unfold spec_call in loaded-Stores (s.job id) look_up-Stores),
  )
  call-Stores (change now id u) n = change_cases now id u _ refl

  -- `updateJob` of a job that is there
  pub update_job-Stores :
      (now id : String) (u : JobUpdates) (job : Job)
      → s.job id ≡ some job
      → ((update_job P now id u w).0 ≡ ok tt)
        × Stores P (update_job P now id u w).1 (spec_write id (assign u now) s)
  update_job-Stores now id u job e =
      let (same, next) = call-Stores (change now id u) tt in
      unfold call spec_call in (seen_unit-done _ (same ∙ ap (λ o. changed o id) e), next)
