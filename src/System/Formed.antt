-- ===== src/System/Formed.antt =====
-- Every step keeps the abstract queue well formed.
use codehive.System.Kept.{overwrite-Known, overwrite-IsKept}
use codehive.Queue.Service.{fresh_job}
use codehive.Routes.WorkerApi.{has_ended}
use codehive.Queue.Memory.{tail_order}
use codehive.Types.{ExecutionResult, ExecutionRequest, Job}
use codehive.Prelude.{
  ◌∙◌, sym, ap, Option, eq_iff, inr, inl, str_eq, Bool-cases, arith, refl, if◌then◌else◌, true, [],
  some, false, none, ◌⊎◌, ◌≡◌, ◌++◌, ◌∷◌, Bool, List, String,
}
use mathlib.Core.Option
use codehive.Queue.Spec.{Spec, spec_write, spec_call, submit}
use codehive.System.Changes.{
  put, IsCareful, Change, add, drop_first, write, stay, waits, NoTwice, WellFormed,
}

pub waits-append :
    (k id : String) (ids : List String)
    → waits k (ids ++ id ∷ []) ≡ (if str_eq id k then true else waits k ids)
waits-append k id [] = refl
waits-append k id (i ∷ ids) = ground (arith, waits-append k id ids)

append-NoTwice :
    (id : String) (ids : List String)
    → waits id ids ≡ false
    → NoTwice ids
    → NoTwice (ids ++ id ∷ [])
append-NoTwice id [] a n = (refl, tt)
append-NoTwice id (i ∷ ids) a (m, n) = (
  ground (arith, waits-append i id ids, eq_iff i id, eq_iff id i),
  append-NoTwice id ids (ground arith) n,
)

tail-NoTwice : (ids : List String) → NoTwice ids → NoTwice (tail_order ids)
tail-NoTwice [] n = tt
tail-NoTwice (i ∷ ids) (m, n) = n

pub waits-tail :
    (k : String) (ids : List String) → waits k (tail_order ids) ≡ true → waits k ids ≡ true
waits-tail k [] h = h
waits-tail k (i ∷ ids) h = ground (arith)

-- the job behind a write
written :
    (b : Bool) (o : Option Job) (f : Job → Job) (j : Job)
    → (if b then Option.map f o else o) ≡ some j
    → (i : Job) × (o ≡ some i) × ((i ≡ j) ⊎ ((b ≡ true) × (f i ≡ j)))
written true none f j h = cc
written true (some i) f j h = (i, refl, inr (refl, cc))
written false o f j h = (j, h, inl refl)

added :
    (b : Bool) (o : Option Job) (x j : Job)
    → (if b then some x else o) ≡ some j
    → ((b ≡ true) × (x ≡ j)) ⊎ (o ≡ some j)
added true o x j h = inl (refl, cc)
added false o x j h = inr h

module _ {s : Spec} (h : WellFormed s) where
  write-keyed :
      (id : String) (f : Job → Job)
      → IsCareful id f
      → (k : String) (j : Job) → (spec_write id f s).job k ≡ some j
      → j.id ≡ k
  write-keyed id f c k j e =
      let (i, at_k, how) = written (str_eq id k) (s.job k) f j e in
      elim how [
        | inl same ↦ ap (λ (x : Job). x.id) (sym same) ∙ h.keyed k i at_k
        | inr by_f ↦ ap (λ (x : Job). x.id) (sym by_f.1) ∙ c.same_id i ∙ h.keyed k i at_k
      ]

  write-ended :
      (id : String) (f : Job → Job)
      → IsCareful id f
      → (k : String) (j : Job) (r : ExecutionResult) → (spec_write id f s).job k ≡ some j
      → j.result ≡ some r
      → (r.id ≡ k) × (has_ended r.status ≡ true)
  write-ended id f c k j r e q =
      let (i, at_k, how) = written (str_eq id k) (s.job k) f j e in
      elim how [
        | inl same ↦ h.ended k i r at_k (ap (λ (x : Job). x.result) same ∙ q)
        | inr by_f ↦
            let new : (f i).result ≡ some r = ap (λ (x : Job). x.result) by_f.1 ∙ q in
            elim (c.result_set i) [
              | inl kept ↦ h.ended k i r at_k (sym kept ∙ new)
              | inr set ↦
                  let (t, is_t, own, over) = set in
                  let same : t ≡ r = cc (is_t, new) in
                  (
                    ap (λ (x : ExecutionResult). x.id) (sym same) ∙ own ∙ (eq_iff id k).0 by_f.0,
                    ap (λ (x : ExecutionResult). has_ended x.status) (sym same) ∙ over,
                  )
            ]
      ]

  write-over :
      (id : String) (f : Job → Job)
      → IsCareful id f
      → (k : String) (j : Job) → (spec_write id f s).job k ≡ some j
      → has_ended j.status ≡ true
      → (r : ExecutionResult) × (j.result ≡ some r)
  write-over id f c k j e q =
      let (i, at_k, how) = written (str_eq id k) (s.job k) f j e in
      elim how [
        | inl same ↦
            let (r, has) = h.over k i at_k (ap (λ (x : Job). has_ended x.status) same ∙ q) in
            (r, ap (λ (x : Job). x.result) (sym same) ∙ has)
        | inr by_f ↦ with_end (f i).result i refl at_k by_f.1
      ]
    where
      with_end :
          (o : Option ExecutionResult) (i : Job)
          → (f i).result ≡ o
          → s.job k ≡ some i
          → f i ≡ j
          → (r : ExecutionResult) × (j.result ≡ some r)
      with_end (some r) i is_o at_k same = (r, ap (λ (x : Job). x.result) (sym same) ∙ is_o)
      with_end none i is_o at_k same =
          let (no_result, ended) =
            c.ends_with_result i is_o (ap (λ (x : Job). has_ended x.status) same ∙ q) in
          let (r, has) = h.over k i at_k ended in cc (no_result, has)

  write-present :
      (id : String) (f : Job → Job) (k : String)
      → waits k s.pending ≡ true
      → (j : Job) × ((spec_write id f s).job k ≡ some j)
  write-present id f k e =
      let (j, at_k) = h.present k e in
      rw at_k (elim (Bool-cases (str_eq id k)) [
        | inl same ↦ (f j, rw same refl)
        | inr other ↦ (j, rw other refl)
      ])

  not_waiting : (id : String) → s.job id ≡ none → waits id s.pending ≡ false
  not_waiting id e = elim (Bool-cases (waits id s.pending)) [
    | inl there ↦ let (j, at_id) = h.present id there in cc (e, at_id)
    | inr absent ↦ absent
  ]

  add-keyed :
      (id now : String) (request : ExecutionRequest) (k : String) (j : Job)
      → (spec_call (submit id now request) s).1.job k ≡ some j
      → j.id ≡ k
  unfolding spec_call
  add-keyed id now request k j e =
      elim (added (str_eq id k) (s.job k) (fresh_job id now request) j e) [
        | inl new ↦ ap (λ (x : Job). x.id) (sym new.1) ∙ (eq_iff id k).0 new.0
        | inr old ↦ h.keyed k j old
      ]

  add-present :
      (id now : String) (request : ExecutionRequest) (k : String)
      → waits k (s.pending ++ id ∷ []) ≡ true
      → (j : Job) × ((spec_call (submit id now request) s).1.job k ≡ some j)
  unfolding spec_call
  add-present id now request k w = elim (Bool-cases (str_eq id k)) [
    | inl same ↦ (fresh_job id now request, rw same refl)
    | inr other ↦
        let (j, at_k) = h.present k (ground (arith, waits-append k id s.pending)) in
        (j, rw other at_k)
  ]

  add-ended :
      (id now : String) (request : ExecutionRequest) (k : String) (j : Job) (r : ExecutionResult)
      → (spec_call (submit id now request) s).1.job k ≡ some j
      → j.result ≡ some r
      → (r.id ≡ k) × (has_ended r.status ≡ true)
  unfolding spec_call
  add-ended id now request k j r e q =
      elim (added (str_eq id k) (s.job k) (fresh_job id now request) j e) [
        | inl new ↦
            let no_result : none ≡ some r = ap (λ (x : Job). x.result) new.1 ∙ q in cc no_result
        | inr old ↦ h.ended k j r old q
      ]

  add-over :
      (id now : String) (request : ExecutionRequest) (k : String) (j : Job)
      → (spec_call (submit id now request) s).1.job k ≡ some j
      → has_ended j.status ≡ true
      → (r : ExecutionResult) × (j.result ≡ some r)
  unfolding spec_call
  add-over id now request k j e q =
      elim (added (str_eq id k) (s.job k) (fresh_job id now request) j e) [
        | inl new ↦
            let not_ended : false ≡ true = ap (λ (x : Job). has_ended x.status) new.1 ∙ q in
            cc not_ended
        | inr old ↦ h.over k j old q
      ]

-- Every change keeps the abstract queue well formed.
pub Change-WellFormed : {s t : Spec} → Change s t → WellFormed s → WellFormed t
unfolding spec_call
Change-WellFormed {s} (add id now request new) h = record {
  keyed = add-keyed h id now request;
  present = add-present h id now request;
  once = append-NoTwice id s.pending (not_waiting h id new) h.once;
  ended = add-ended h id now request;
  over = add-over h id now request;
}
Change-WellFormed {s} drop_first h = record {
  keyed = h.keyed;
  present = λ k w. h.present k (waits-tail k s.pending w);
  once = tail-NoTwice s.pending h.once;
  ended = h.ended;
  over = h.over;
}
Change-WellFormed (write id f c) h = record {
  keyed = write-keyed h id f c;
  present = write-present h id f;
  once = h.once;
  ended = write-ended h id f c;
  over = write-over h id f c;
}
Change-WellFormed {s} (put id j known good) h =
    let kept = overwrite-IsKept id j h good in
    record {
      keyed = λ k i e. (kept k i e).own;
      present = λ k w. overwrite-Known s id j k (h.present k w);
      once = h.once;
      ended = λ k i r e. (kept k i e).ended r;
      over = λ k i e. (kept k i e).over;
    }
Change-WellFormed stay h = h
