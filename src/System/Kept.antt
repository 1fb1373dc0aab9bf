-- ===== src/System/Kept.antt =====
-- The jobs that the code stores, and the SET of one of them.
use codehive.Routes.WorkerApi.{has_ended}
use mathlib.Core.Path.{subst}
use codehive.System.Changes.{overwrite}
use codehive.Types.{ExecutionResult, Job}
use codehive.Prelude.{
  Option-cases, eq_iff, refl, false, ap, inr, ◌⊎◌, sym, str_eq, Bool-cases, true, inl, ◌∙◌, some,
  if◌then◌else◌, ◌≡◌, Option, Bool, String,
}
use codehive.Queue.Spec.{Spec}
use codehive.System.Changes.{IsCareful, WellFormed, IsKept}

pub WellFormed-IsKept :
    {s : Spec} → WellFormed s → (id : String) (j : Job) → s.job id ≡ some j → IsKept id j
WellFormed-IsKept h id j e = record {
  own = h.keyed id j e;
  ended = λ r q. h.ended id j r e q;
  over = h.over id j e;
}

pub IsCareful-IsKept :
    {id : String} {f : Job → Job} → IsCareful id f → (j : Job) → IsKept id j → IsKept id (f j)
IsCareful-IsKept {id} {f} c j k = record {
  own = c.same_id j ∙ k.own;
  ended = λ r q. elim (c.result_set j) [
    | inl kept ↦ k.ended r (sym kept ∙ q)
    | inr set ↦
        let (t, is_t, own, over) = set in
        let same : t ≡ r = cc (is_t, q) in
        (
          ap (λ (x : ExecutionResult). x.id) (sym same) ∙ own,
          ap (λ (x : ExecutionResult). has_ended x.status) (sym same) ∙ over,
        )
  ];
  over = λ e. elim (Option-cases (f j).result) [
    | inl none_ ↦
        let (no_result, was_over) = c.ends_with_result j none_ e in
        let (r, has) = k.over was_over in absurd (cc (no_result, has))
    | inr found ↦ found
  ];
}

-- the job at a key behind an overwrite
overwritten :
    (b : Bool) (o : Option Job) (job j : Job)
    → (if b then some job else o) ≡ some j
    → ((b ≡ true) × (job ≡ j)) ⊎ ((b ≡ false) × (o ≡ some j))
overwritten true o job j e = inl (refl, cc)
overwritten false o job j e = inr (refl, e)

pub overwrite-Known :
    (s : Spec) (id : String) (j : Job) (k : String)
    → ((i : Job) × (s.job k ≡ some i))
    → (i : Job) × ((overwrite id j s).job k ≡ some i)
overwrite-Known s id j k (i, at_k) = elim (Bool-cases (str_eq id k)) [
  | inl same ↦ (j, rw same refl)
  | inr other ↦ (i, rw other at_k)
]

pub overwrite-IsKept :
    {s : Spec} (id : String) (j : Job)
    → WellFormed s
    → IsKept id j
    → (k : String) (i : Job) → (overwrite id j s).job k ≡ some i
    → IsKept k i
overwrite-IsKept {s} id j h good k i e = elim (overwritten (str_eq id k) (s.job k) j i e) [
  | inl here ↦
      subst (λ x. IsKept k x) here.1 (subst (λ x. IsKept x j) ((eq_iff id k).0 here.0) good)
  | inr there ↦ WellFormed-IsKept h k i there.1
]
