-- ===== src/Commands/Coherent.antt =====
-- What holds in every state that the server process and the Redis server reach together, when the commands
-- of all calls of api/src/services/queue.ts interleave and may be lost.
use codehive.System.Formed.{Change-WellFormed}
use codehive.System.Changes.{Change}
use codehive.Executor.Run.{failure_result}
use codehive.System.Simulates.{settle-IsCareful, claim-IsCareful}
use mathlib.Core.Option
use codehive.Commands.Executed.{answer-Executed, Executed}
use codehive.Queue.Service.{job_key}
use codehive.Queue.Memory.{assign, JobUpdates}
use mathlib.Core.Path.{subst}
use codehive.Types.{Job, ExecutionRequest}
use codehive.Commands.Effects.{Spares, Adds, Fits, Change-Fits}
use codehive.System.Changes.{IsCareful, stay, WellFormed}
use codehive.Commands.Holds.{Holds}
use codehive.Queue.Spec.{Spec}
use codehive.Commands.{
  Trace, IsLater, resent, submits, asks, looks, changes, answered, dropped, unanswered, claims,
  settles, marks, fails, popping, storing, changing, looking, taking, claims, Update, answer, Move,
  going_on, adding, at_call, Command, Process,
}
use codehive.Prelude.{
  refl, ap, ◌∙◌, sym, none, arith, inr, ==_iff, inl, ◌==◌, Bool-cases, ◌≢◌, String, ◌⊎◌, some, ◌≡◌,
  Option, ℕ,
}
use codehive.Queue.Platform.{Platform}

-- the server holds a well-formed queue, and every call under way can rely on what it knows
pub record Coherent {S V : Type 0} (P : Platform S V) (p : Process S) : Type 0 where
  pub view : Spec
  pub holds : Holds P p.server view
  pub formed : WellFormed view
  pub fits : (i : ℕ) (c : Command) → p.calls i ≡ some c → Fits view c
  pub distinct :
      (i j : ℕ) (id at at' : String) (r r' : ExecutionRequest)
      → p.calls i ≡ some (adding id at r)
      → p.calls j ≡ some (adding id at' r')
      → i ≡ j

-- what stands under a number behind a step of one call
at_call-cases :
    (i j : ℕ) (o : Option Command) (calls : ℕ → Option Command) (d : Command)
    → at_call i o calls j ≡ some d
    → ((i ≡ j) × (o ≡ some d)) ⊎ ((i ≢ j) × (calls j ≡ some d))
at_call-cases i j o calls d e = elim (Bool-cases (i == j)) [
  | inl same ↦ inl ((==_iff i j).0 same, ground (arith, e))
  | inr other ↦ inr (λ q. ground (arith, other), ground (arith, e))
]

module _ {S V : Type 0} {P : Platform S V} {p : Process S} (h : Coherent P p) (i : ℕ) (c : Command)
    (waits_at : p.calls i ≡ some c) where
  -- the call under a number goes on as far as the state behind its command allows, or it ends
  move :
      (t : Spec) (e : Change h.view t) (server : S)
      → Holds P server t
      → ((k : String) → Adds e k → (at : String) × (r : ExecutionRequest) × (c ≡ adding k at r))
      → (o : Option Command) → ((d : Command) → o ≡ some d → Fits t d × IsLater d)
      → Coherent P (record { server = server; calls = at_call i o p.calls })
  move t e server holds adds o next = record {
    view = t;
    holds = holds;
    formed = Change-WellFormed e h.formed;
    fits = λ j d q. elim (at_call-cases i j o p.calls d q) [
      | inl here ↦ (next d here.1).0
      | inr there ↦ Change-Fits d e (spared j there.0 d there.1) (h.fits j d there.1)
    ];
    distinct = λ j k id at at' r r' q q'. elim (at_call-cases i j o p.calls (adding id at r) q) [
      | inl here ↦ absurd ((next (adding id at r) here.1).1)
      | inr there ↦ elim (at_call-cases i k o p.calls (adding id at' r') q') [
        | inl here ↦ absurd ((next (adding id at' r') here.1).1)
        | inr there' ↦ h.distinct j k id at at' r r' there.1 there'.1
      ]
    ];
  }
    where
      spared : (j : ℕ) → i ≢ j → (d : Command) → p.calls j ≡ some d → Spares e d
      spared j n (adding id at r) q = λ a.
          let (at', r', same) = adds id a in
          n (h.distinct i j id at' at r' r (waits_at ∙ ap some same) q)
      spared j n popping q = tt
      spared j n (taking id) q = tt
      spared j n (looking id) q = tt
      spared j n (changing id u) q = tt
      spared j n (storing id x) q = tt

  -- a command is executed, and the call goes on or is rejected
  pub answered-Coherent :
      (now : String) (o : Option Command)
      → ((d : Command) → o ≡ some d → going_on (answer P now c p.server).0 ≡ some d)
      → Coherent P (record { server = (answer P now c p.server).1; calls = at_call i o p.calls })
  answered-Coherent now o follows =
      let x = answer-Executed P now h.holds h.formed c (h.fits i c waits_at) in
      move x.after x.effect (answer P now c p.server).1 x.holds x.adds o
        (λ d q. x.next d (follows d q))

  pub resent-Coherent :
      (now : String) → IsLater c → Coherent P (record p { server = (answer P now c p.server).1 })
  resent-Coherent now later =
      let x = answer-Executed P now h.holds h.formed c (h.fits i c waits_at) in
      record {
        view = x.after;
        holds = x.holds;
        formed = Change-WellFormed x.effect h.formed;
        fits = λ j d q. Change-Fits d x.effect (spared x d) (h.fits j d q);
        distinct = h.distinct;
      }
    where
      not_adding :
          (d : Command)
          → IsLater d
          → {k : String} → ¬ ((at : String) × (r : ExecutionRequest) × (d ≡ adding k at r))
      not_adding d l {k} (at, r, same) = subst IsLater same l

      spared : (x : Executed P now c p.server h.view) → (d : Command) → Spares x.effect d
      spared x (adding id at r) = λ a. not_adding c later (x.adds id a)
      spared x popping = tt
      spared x (taking id) = tt
      spared x (looking id) = tt
      spared x (changing id u) = tt
      spared x (storing id y) = tt

  pub dropped-Coherent : Coherent P (record p { calls = at_call i none p.calls })
  dropped-Coherent = move h.view stay p.server h.holds (λ k a. absurd a) none (λ d q. cc)

-- a new call
module _ {S V : Type 0} {P : Platform S V} {p : Process S} (h : Coherent P p) (i : ℕ) where
  begun :
      (c : Command)
      → Fits h.view c
      → ((id at : String) (r : ExecutionRequest)
          → c ≡ adding id at r
          → (j : ℕ) (at' : String) (r' : ExecutionRequest) → p.calls j ≢ some (adding id at' r'))
      → Coherent P (record p { calls = at_call i (some c) p.calls })
  begun c fit unique = record {
    view = h.view;
    holds = h.holds;
    formed = h.formed;
    fits = λ j d q. elim (at_call-cases i j (some c) p.calls d q) [
      | inl here ↦ let same : c ≡ d = cc (here.1) in subst (Fits h.view) same fit
      | inr there ↦ h.fits j d there.1
    ];
    distinct = λ j k id at at' r r' q q'.
        elim (at_call-cases i j (some c) p.calls (adding id at r) q) [
          | inl here ↦
              let same : c ≡ adding id at r = cc (here.1) in
              elim (at_call-cases i k (some c) p.calls (adding id at' r') q') [
                | inl here' ↦ sym here.0 ∙ here'.0
                | inr there ↦ absurd (unique id at r same k at' r' there.1)
              ]
          | inr there ↦ elim (at_call-cases i k (some c) p.calls (adding id at' r') q') [
            | inl here' ↦
                let same : c ≡ adding id at' r' = cc (here'.1) in
                absurd (unique id at' r' same j at r there.1)
            | inr there' ↦ h.distinct j k id at at' r r' there.1 there'.1
          ]
        ];
  }

Update-IsCareful :
    (id : String) (u : JobUpdates) → Update id u → (now : String) → IsCareful id (assign u now)
unfolding assign
Update-IsCareful id u (claims worker) now = claim-IsCareful now id worker
Update-IsCareful id u (settles r e) now = settle-IsCareful now id r e
Update-IsCareful id u marks now = record {
  same_id = λ j. refl;
  result_set = λ j. inl refl;
  ends_with_result = λ j e q. cc;
}
Update-IsCareful id u (fails H a e same) now = record {
  same_id = λ j. refl;
  result_set = λ j. inr (failure_result H a e, refl, same, refl);
  ends_with_result = λ j e q. cc;
}

-- no job stands at a key whose GET is answered by null
unknown :
    {S V : Type 0} (P : Platform S V) {server : S} {s : Spec}
    → Holds P server s
    → (id : String) → P.get (job_key id) server ≡ none
    → s.job id ≡ none
unknown P {s = s} h id e = absent (s.job id) (sym (h.jobs id) ∙ e)
  where
    absent : (o : Option Job) → Option.map P.stringify o ≡ none → o ≡ none
    absent none q = refl
    absent (some j) q = cc

-- A step keeps the state coherent, and keeps what every effect on the queue keeps.
pub Move-lasts :
    {S V : Type 0} {P : Platform S V} {p q : Process S} (Q : Spec → Type 0)
    → ((s t : Spec) → Change s t → Q s → Q t)
    → Move P p q
    → (h : Coherent P p) → Q h.view
    → (k : Coherent P q) × Q k.view
unfolding begun move answered-Coherent dropped-Coherent resent-Coherent
Move-lasts {P = P} Q keep (submits i id at request free named new unique) h x = (
  begun h i (adding id at request) (named, unknown P h.holds id new)
      (λ k at' r e j at'' r' q.
        let same : id ≡ k = cc (e) in
        unique j at'' r' (q ∙ ap (λ x. some (adding x at'' r')) (sym same))),
  x,
)
Move-lasts Q keep (asks i free) h x = (begun h i popping tt (λ k at r e. cc), x)
Move-lasts Q keep (looks i id free) h x = (begun h i (looking id) tt (λ k at r e. cc), x)
Move-lasts Q keep (changes i id u free how) h x =
    (begun h i (changing id u) (Update-IsCareful id u how) (λ k at r e. cc), x)
Move-lasts {P = P} Q keep (answered i c now at_i) h x = (
  answered-Coherent h i c at_i now _ (λ d e. e),
  keep h.view _ (answer-Executed P now h.holds h.formed c (h.fits i c at_i)).effect x,
)
Move-lasts Q keep (dropped i c at_i) h x = (dropped-Coherent h i c at_i, x)
Move-lasts {P = P} Q keep (unanswered i c now at_i) h x = (
  answered-Coherent h i c at_i now none (λ d e. cc),
  keep h.view _ (answer-Executed P now h.holds h.formed c (h.fits i c at_i)).effect x,
)
Move-lasts {P = P} Q keep (resent i c now at_i later) h x = (
  resent-Coherent h i c at_i now later,
  keep h.view _ (answer-Executed P now h.holds h.formed c (h.fits i c at_i)).effect x,
)

pub Trace-lasts :
    {S V : Type 0} {P : Platform S V} {p q : Process S} (Q : Spec → Type 0)
    → ((s t : Spec) → Change s t → Q s → Q t)
    → Trace P p q
    → (h : Coherent P p) → Q h.view
    → (k : Coherent P q) × Q k.view
Trace-lasts Q keep Trace.here h x = (h, x)
Trace-lasts Q keep (Trace.later before m) h x =
    let (k, y) = Trace-lasts Q keep before h x in Move-lasts Q keep m k y
