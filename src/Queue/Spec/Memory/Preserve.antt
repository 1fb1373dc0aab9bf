-- ===== src/Queue/Spec/Memory/Preserve.antt =====
-- The worlds that the calls leave on the memory backend hold the abstract states after.
use codehive.Types.{Job, ExecutionRequest}
use codehive.Prelude.{
  zero, get_elem?, sym, false≢true, inr, get_elem?-append_end, inl, refl, length-append, ◌∙◌,
  Bool-cases, get_elem?-append_left, ap, suc, ◌≡◌, ◌<◌, Option, none, some, String, List, [], ◌∷◌,
  ◌++◌, str_eq, if◌then◌else◌, arith, false, length, eq_iff,
}
use codehive.Prelude.Dict
use mathlib.Core.Option
use codehive.Queue.World.{
  get_elem?-modify_at_self, get_elem?-modify_at_ne, length-modify_at, modify_at, World, Ref,
}
use codehive.Queue.Memory.{first_job, deref, tail_order, JobUpdates, mem_dequeue, mem_enqueue, find}
use codehive.Queue.Service.{fresh_job, get_redis, chosen}
use codehive.Queue.Spec.{spec_write, change, first_pending, take_next, submit, spec_call, Spec}
use codehive.Queue.Spec.Memory.Relation.{AllNamed, AllNamed-tail, Implements}

pub in_bounds_some :
    (heap : List Job) (r : Ref) → r < length heap → (job : Job) × (get_elem? heap r ≡ some job)
in_bounds_some [] r h = elim h [ ]
in_bounds_some (job ∷ heap) zero h = (job, refl)
in_bounds_some (job ∷ heap) (suc r) h = in_bounds_some heap r (omega arith)

pub chosen-get_redis : {S : Type 0} (w : World S) → chosen (get_redis w) ≡ chosen w
unfolding get_redis
chosen-get_redis w = ground arith

deref-append :
    (heap : List Job) (job : Job) (o : Option Ref)
    → ((r : Ref) → o ≡ some r → r < length heap)
    → deref (heap ++ job ∷ []) o ≡ deref heap o
deref-append heap job none h = refl
deref-append heap job (some r) h = get_elem?-append_left heap (job ∷ []) r (h r refl)

-- a new object at the end of the heap, and a key for it
deref-put :
    (heap : List Job) (job : Job) (jobs : Dict.Dict Ref) (id k : String)
    → ((r : Ref) → Dict.get k jobs ≡ some r → r < length heap)
    → deref (heap ++ job ∷ []) (Dict.get k (Dict.put id (length heap) jobs))
      ≡ (if str_eq id k then some job else deref heap (Dict.get k jobs))
deref-put heap job jobs id k h = rw Dict.get-put (elim (Bool-cases (str_eq id k)) [
  | inl same ↦ rw same (get_elem?-append_end heap job)
  | inr other ↦ rw other (deref-append heap job (Dict.get k jobs) h)
])

pub AllNamed-append :
    (ids : List String) (id : String)
    → AllNamed ids
    → str_eq id "" ≡ false
    → AllNamed (ids ++ id ∷ [])
AllNamed-append [] id h n = (n, tt)
AllNamed-append (i ∷ ids) id (m, h) n = (m, AllNamed-append ids id h n)

module _ {S : Type 0} {w : World S} {s : Spec} (h : Implements w s) where
  put_in_bounds :
      (id k : String) (r : Ref)
      → Dict.get k (Dict.put id (length w.heap) w.mem.jobs) ≡ some r
      → r < suc (length w.heap)
  put_in_bounds id k r = rw Dict.get-put (λ e. ground (arith, h.in_bounds k r))

  put_apart :
      (id j k : String) (r : Ref)
      → Dict.get j (Dict.put id (length w.heap) w.mem.jobs) ≡ some r
      → Dict.get k (Dict.put id (length w.heap) w.mem.jobs) ≡ some r
      → j ≡ k
  put_apart id j k r =
      rw (Dict.get-put id j, Dict.get-put id k)
        (λ e f.
          ground (arith, h.in_bounds k r, h.in_bounds j r, h.apart j k r, eq_iff id j, eq_iff id k))

  -- the world after `enqueue`
  pub submit-Implements :
      (id now : String) (request : ExecutionRequest)
      → str_eq id "" ≡ false
      → Implements
          (record (get_redis w) {
            heap = w.heap ++ fresh_job id now request ∷ [];
            mem = mem_enqueue (length w.heap) id w.mem;
          })
          (spec_call (submit id now request) s).1
  unfolding spec_call get_redis find mem_enqueue
  submit-Implements id now request n = record {
    backend = ground (arith, h.backend);
    order = ap (λ l. l ++ id ∷ []) h.order;
    jobs = λ k. deref-put w.heap _ w.mem.jobs id k (h.in_bounds k) ∙ rw (← h.jobs k);
    named = AllNamed-append s.pending id h.named n;
    in_bounds = λ k r e.
        omega (arith, put_in_bounds id k r e, length-append w.heap (fresh_job id now request ∷ []));
    apart = put_apart id;
  }

  pub take_next-Implements :
      Implements (record (get_redis w) { mem = (mem_dequeue w.mem).1 }) (spec_call take_next s).1
  unfolding spec_call get_redis find mem_dequeue
  take_next-Implements = record {
    backend = ground (arith, h.backend);
    order = ap tail_order h.order;
    jobs = h.jobs;
    named = AllNamed-tail s.pending h.named;
    in_bounds = h.in_bounds;
    apart = h.apart;
  }

  pub look_up-Implements : Implements (get_redis w) s
  unfolding get_redis find
  look_up-Implements = record {
    backend = ground (arith, h.backend);
    order = h.order;
    jobs = h.jobs;
    named = h.named;
    in_bounds = h.in_bounds;
    apart = h.apart;
  }

  -- what `dequeue` finds first
  pub first_job-eq :
      (ids : List String)
      → AllNamed ids
      → deref w.heap (first_job ids w.mem.jobs) ≡ first_pending ids s.job
  unfolding find
  first_job-eq [] n = refl
  first_job-eq (id ∷ ids) (m, n) = rw m (h.jobs id)

  -- a write to the object of one identifier
  deref-modify :
      (id k : String) (r : Ref) (f : Job → Job)
      → Dict.get id w.mem.jobs ≡ some r
      → deref (modify_at r f w.heap) (Dict.get k w.mem.jobs)
        ≡ (if str_eq id k then Option.map f (s.job k) else s.job k)
  unfolding find
  deref-modify id k r f e = elim (Bool-cases (str_eq id k)) [
    | inl same ↦
        let same_id : id ≡ k = (eq_iff id k).0 same in
        let at_k : Dict.get k w.mem.jobs ≡ some r = rw (← same_id) e in
        rw (same, at_k)
          (get_elem?-modify_at_self r f w.heap
            ∙ ap (Option.map f) (sym (ap (deref w.heap) at_k) ∙ h.jobs k))
    | inr other ↦ rw other (ne_case (Dict.get k w.mem.jobs) refl other ∙ h.jobs k)
  ]
    where
      ne_case :
          (o : Option Ref)
          → Dict.get k w.mem.jobs ≡ o
          → str_eq id k ≡ false
          → deref (modify_at r f w.heap) o ≡ deref w.heap o
      ne_case none g other = refl
      ne_case (some q) g other =
          get_elem?-modify_at_ne r q f w.heap
            (λ same. false≢true (sym other ∙ (eq_iff id k).1 (h.apart id k r e (rw (same) g))))

  pub deref_some :
      (id : String) (r : Ref)
      → Dict.get id w.mem.jobs ≡ some r
      → (job : Job) × (s.job id ≡ some job)
  unfolding find
  deref_some id r e =
      let (job, found) = in_bounds_some w.heap r (h.in_bounds id r e) in
      (job, sym (h.jobs id) ∙ ap (deref w.heap) e ∙ found)

  -- a write to the object behind one identifier
  pub write-Implements :
      (id : String) (f : Job → Job) (r : Ref)
      → Dict.get id w.mem.jobs ≡ some r
      → Implements (record (get_redis w) { heap = modify_at r f w.heap }) (spec_write id f s)
  unfolding get_redis find
  write-Implements id f r e = record {
    backend = ground (arith, h.backend);
    order = h.order;
    jobs = λ k. deref-modify id k r f e;
    named = h.named;
    in_bounds = λ k q g. rw length-modify_at (h.in_bounds k q g);
    apart = h.apart;
  }

  -- the reference behind a job that is there
  pub ref_of_job :
      (id : String) (job : Job)
      → s.job id ≡ some job
      → (r : Ref) × (Dict.get id w.mem.jobs ≡ some r)
  unfolding find
  ref_of_job id job e = at_ref (Dict.get id w.mem.jobs) (h.jobs id ∙ e)
    where
      at_ref : (o : Option Ref) → deref w.heap o ≡ some job → (r : Ref) × (o ≡ some r)
      at_ref none g = cc
      at_ref (some r) g = (r, refl)

  -- a failing `updateJob` leaves all jobs as they are
  pub unchanged-Implements :
      (now id : String) (u : JobUpdates)
      → Dict.get id w.mem.jobs ≡ none
      → Implements (get_redis w) (spec_call (change now id u) s).1
  unfolding spec_call get_redis find
  unchanged-Implements now id u e = record {
    backend = ground (arith, h.backend);
    order = h.order;
    jobs = λ k. ground (arith, h.jobs k, eq_iff id k, ap (deref w.heap) e);
    named = h.named;
    in_bounds = h.in_bounds;
    apart = h.apart;
  }
