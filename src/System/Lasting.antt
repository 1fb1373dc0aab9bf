-- ===== src/System/Lasting.antt =====
-- What lasts once it holds: an identifier that was handed out waits no more, and a job that has a result
-- keeps one.
use codehive.System.Kept.{overwrite-Known}
use codehive.Queue.Service.{fresh_job}
use codehive.Types.{ExecutionResult, Job}
use codehive.Prelude.{
  ◌∙◌, ap, eq_iff, inr, inl, str_eq, Bool-cases, arith, refl, some, false, ◌≡◌, String,
}
use codehive.Queue.Spec.{Spec, spec_call}
use codehive.System.Changes.{Change, add, drop_first, write, stay, put, waits, IsWhole}
use codehive.System.Formed.{waits-append, waits-tail}

-- an identifier of a job
abbrev pub Known : String → Spec → Type 0
Known id s = (j : Job) × (s.job id ≡ some j)

pub Change-Known : {s t : Spec} (id : String) → Change s t → Known id s → Known id t
unfolding spec_call
Change-Known {s} id (add i now request new) (j, known) = elim (Bool-cases (str_eq i id)) [
  | inl same ↦ (fresh_job i now request, rw same refl)
  | inr other ↦ (j, rw other known)
]
Change-Known id drop_first k = k
Change-Known {s} id (write i f c) (j, known) = elim (Bool-cases (str_eq i id)) [
  | inl same ↦ (f j, rw (known, same) refl)
  | inr other ↦ (j, rw (known, other) refl)
]
Change-Known {s} id (put i j there good) k = overwrite-Known s i j id k
Change-Known id stay k = k

-- an identifier that was handed out: its job is known, and it waits no longer
pub record Retired (id : String) (s : Spec) : Type 0 where
  pub known : Known id s
  pub gone : waits id s.pending ≡ false

pub Change-Retired : {s t : Spec} (id : String) → Change s t → Retired id s → Retired id t
unfolding spec_call
Change-Retired {s} id (add i now request new) r = record {
  known = Change-Known {s = s} id (add i now request new) r.known;
  gone = elim (Bool-cases (str_eq i id)) [
    | inl same ↦
        let (j, at_id) = r.known in
        let at_i : s.job i ≡ some j = ap s.job ((eq_iff i id).0 same) ∙ at_id in
        absurd (cc (new, at_i))
    | inr other ↦ ground (arith, waits-append id i s.pending, r.gone)
  ];
}
Change-Retired {s} id drop_first r = record {
  known = r.known;
  gone = ground (arith, waits-tail id s.pending, r.gone);
}
Change-Retired {s} id (write i f c) r = record {
  known = Change-Known {s = s} id (write i f c) r.known;
  gone = r.gone;
}
Change-Retired {s} id (put i j there good) r = record {
  known = overwrite-Known s i j id r.known;
  gone = r.gone;
}
Change-Retired id stay r = r

-- a job that has a result; the SET of a copy that was read before it may take it away
pub record HasResult (id : String) (s : Spec) : Type 0 where
  pub there : Job
  pub known : s.job id ≡ some there
  pub outcome : ExecutionResult
  pub has : there.result ≡ some outcome

pub Change-HasResult :
    {s t : Spec} (id : String) (c : Change s t) → IsWhole c → HasResult id s → HasResult id t
unfolding spec_call
Change-HasResult {s} id (add i now request new) whole r = elim (Bool-cases (str_eq i id)) [
  | inl same ↦
      let at_i : s.job i ≡ some r.there = ap s.job ((eq_iff i id).0 same) ∙ r.known in
      absurd (cc (new, at_i))
  | inr other ↦ record {
    there = r.there;
    known = rw other r.known;
    outcome = r.outcome;
    has = r.has;
  }
]
Change-HasResult id drop_first whole r = record {
  there = r.there;
  known = r.known;
  outcome = r.outcome;
  has = r.has;
}
Change-HasResult {s} id (write i f c) whole r = elim (Bool-cases (str_eq i id)) [
  | inl same ↦ elim (c.result_set r.there) [
    | inl kept ↦ record {
      there = f r.there;
      known = rw (same, r.known) refl;
      outcome = r.outcome;
      has = kept ∙ r.has;
    }
    | inr set ↦
        let (t, is_t, own, over) = set in
        record { there = f r.there; known = rw (same, r.known) refl; outcome = t; has = is_t }
  ]
  | inr other ↦ record {
    there = r.there;
    known = rw other r.known;
    outcome = r.outcome;
    has = r.has;
  }
]
Change-HasResult id (put i j there good) whole r = absurd whole
Change-HasResult id stay whole r = r
