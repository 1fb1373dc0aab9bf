-- ===== src/Commands/Safety.antt =====
-- The order of the jobs, and the losses, when the commands of all calls interleave and may be lost.
use codehive.System.Lasting.{Change-Known}
use codehive.System.Lasting.{Change-Retired}
use codehive.System.Turns.{Change-InTurn}
use codehive.System.Kept.{WellFormed-IsKept}
use codehive.System.Changes.{IsKept}
use codehive.System.Turns.{behind, behind-absent, InTurn}
use mathlib.Core.Option
use codehive.Types.{Job}
use codehive.Commands.Holds.{Holds}
use codehive.Queue.Spec.{Spec}
use codehive.Queue.Spec.Redis.Calls.{take_cases}
use mathlib.Core.Path.{subst}
use codehive.Queue.Memory.{tail_order}
use mathlib.Core.List.{reverse-reverse, reverse-cons}
use codehive.System.Changes.{NoTwice, waits}
use codehive.System.Safety.{no_jobs-WellFormed}
use codehive.System.Lasting.{Known, Retired}
use codehive.Queue.Service.{job_key, queue_key}
use codehive.Commands.Coherent.{Move-lasts, Trace-lasts, Coherent}
use codehive.Queue.Spec.Agree.{no_jobs, IsFresh}
use codehive.Prelude.{
  inr, inl, Bool-cases, Option, false, sym, false≢true, [], eq_refl, arith, reverse, ◌∙◌, true, ◌∷◌,
  List, ap, some, refl, ◌≢◌, ◌≡◌, ℕ, String, none,
}
use codehive.Queue.Platform.{Platform}
use codehive.Commands.{
  going_on, at_call, unanswered, resent, answer, popping, answered, Move, Trace, Process,
}

-- the process at its start, with a server that holds nothing for the queue
abbrev pub idle : {S : Type 0} → S → Process S
idle server = record { server = server; calls = λ i. none }

idle-Coherent :
    {S V : Type 0} (P : Platform S V) (server : S) → IsFresh P server → Coherent P (idle server)
idle-Coherent P server fresh = record {
  view = no_jobs;
  holds = record { backend = refl; order = fresh.no_items; jobs = fresh.no_values; named = tt };
  formed = no_jobs-WellFormed;
  fits = λ i c e. cc;
  distinct = λ i j id at at' r r' e e'. cc;
}

pub Trace-Coherent :
    {S V : Type 0} {P : Platform S V} {server : S} {p : Process S}
    → IsFresh P server
    → Trace P (idle server) p
    → Coherent P p
Trace-Coherent {P = P} {server} fresh r =
    (Trace-lasts (λ s. Unit) (λ s t e x. x) r (idle-Coherent P server fresh) tt).0

-- RPOP takes an identifier for a call of `dequeue`, which may learn of it or not, and may be sent again
pub data Pop {S V : Type 0} (P : Platform S V) (id : String) (p : Process S)
    : Process S → Type 0 where
  replied :
      (i : ℕ) (now : String)
      → p.calls i ≡ some popping
      → (P.rpop queue_key p.server).0 ≡ some id
      → Pop P id p (record {
        server = (answer P now popping p.server).1;
        calls = at_call i (going_on (answer P now popping p.server).0) p.calls;
      })
  unreplied :
      (i : ℕ) (now : String)
      → p.calls i ≡ some popping
      → (P.rpop queue_key p.server).0 ≡ some id
      → Pop P id p
          (record { server = (answer P now popping p.server).1; calls = at_call i none p.calls })
  repeated :
      (i : ℕ) (now : String)
      → p.calls i ≡ some popping
      → (P.rpop queue_key p.server).0 ≡ some id
      → Pop P id p (record p { server = (answer P now popping p.server).1 })

taken_by :
    {S V : Type 0} {P : Platform S V} {id : String} {p q : Process S}
    → Pop P id p q
    → (P.rpop queue_key p.server).0 ≡ some id
taken_by (replied i now at_i e) = e
taken_by (unreplied i now at_i e) = e
taken_by (repeated i now at_i e) = e

Pop-Move :
    {S V : Type 0} {P : Platform S V} {id : String} {p q : Process S} → Pop P id p q → Move P p q
Pop-Move (replied i now at_i e) = answered i popping now at_i
Pop-Move (unreplied i now at_i e) = unanswered i popping now at_i
Pop-Move (repeated i now at_i e) = resent i popping now at_i tt

module _ {S V : Type 0} (P : Platform S V) {p : Process S} (h : Coherent P p) where
  -- the identifier that RPOP takes is the one that waits first
  popped_first :
      (id : String)
      → (P.rpop queue_key p.server).0 ≡ some id
      → (ids : List String) × (h.view.pending ≡ id ∷ ids)
  popped_first id e = by_order h.view.pending refl
    where
      by_order :
          (ids : List String)
          → h.view.pending ≡ ids
          → (rest : List String) × (h.view.pending ≡ id ∷ rest)
      by_order [] q = cc (e, P.rpop-empty queue_key p.server (h.holds.order ∙ ap reverse q))
      by_order (i ∷ rest) q =
          let taken =
            P.rpop-last queue_key p.server (reverse rest) i
              (h.holds.order ∙ ap reverse q ∙ reverse-cons i rest) in
          let same : i ≡ id = cc (e, taken) in (rest, q ∙ ap (λ x. x ∷ rest) same)

  -- an identifier that is retired is not taken
  Retired-taken :
      (id : String)
      → Retired id h.view
      → (k : String) → (P.rpop queue_key p.server).0 ≡ some k
      → k ≢ id
  Retired-taken id r k e same =
      let (ids, q) = popped_first k e in
      let waiting : waits id h.view.pending ≡ true =
        ap (waits id) q ∙ ap (λ x. waits id (x ∷ ids)) same ∙ ground (arith, eq_refl id) in
      false≢true (sym r.gone ∙ waiting)

module _ {S V : Type 0} {P : Platform S V} where
  popped_server :
      {id : String} {p q : Process S} → Pop P id p q → q.server ≡ (P.rpop queue_key p.server).1
  unfolding answer
  popped_server (replied i now at_i e) = refl
  popped_server (unreplied i now at_i e) = refl
  popped_server (repeated i now at_i e) = refl

  -- behind RPOP, whoever does not wait behind the first identifier is retired if its job is known
  popped-Retired :
      {id : String} {p q : Process S} (h : Coherent P p)
      → Pop P id p q
      → (a : String) → Known a h.view
      → waits a (tail_order h.view.pending) ≡ false
      → (k : Coherent P q) × Retired a k.view
  popped-Retired {p = p} h pop a known gone =
      let (k, still) =
        Move-lasts (Known a) (λ s t e x. Change-Known {s = s} {t = t} a e x) (Pop-Move pop) h
          known in
      let same : reverse k.view.pending ≡ reverse (tail_order h.view.pending) =
        sym k.holds.order
        ∙ ap (P.items queue_key) (popped_server pop)
        ∙ (take_cases P h.holds h.view.pending refl).1 in
      let order : k.view.pending ≡ tail_order h.view.pending =
        sym (reverse-reverse k.view.pending)
        ∙ ap reverse same
        ∙ reverse-reverse (tail_order h.view.pending) in
      (k, record { known = still; gone = ap (waits a) order ∙ gone })

  -- no later RPOP takes an identifier that is retired
  never_popped :
      {a : String} {p q r : Process S} (h : Coherent P p)
      → Retired a h.view
      → Trace P p q
      → (k : String) → Pop P k q r
      → k ≢ a
  never_popped {a} h retired more k pop =
      let (c, still) = Trace-lasts (Retired a) (λ s t. Change-Retired a) more h retired in
      Retired-taken P c a still k (taken_by pop)

-- The Redis server holds nothing for the queue when the process starts. However the commands of all calls
-- interleave, whichever of them or of their replies are lost, and whichever are sent and executed again
-- because their reply was lost, the MULTI of `enqueue` excepted, which is executed once at most: an
-- identifier that RPOP has taken is never taken again.
pub popped_once :
    {S V : Type 0} {P : Platform S V} (server : S) {p p' q q' : Process S}
    → IsFresh P server
    → Trace P (idle server) p
    → (id : String) → Pop P id p p'
    → Trace P p' q
    → (k : String) → Pop P k q q'
    → k ≢ id
popped_once {P = P} server fresh reached id pop more k again =
    let h = Trace-Coherent fresh reached in
    let (ids, first) = popped_first P h id (taken_by pop) in
    let known = h.formed.present id (ap (waits id) first ∙ ground (arith, eq_refl id)) in
    let gone : waits id (tail_order h.view.pending) ≡ false =
      ap (λ l. waits id (tail_order l)) first ∙ (subst NoTwice first h.formed.once).0 in
    let (c, retired) = popped-Retired h pop id known gone in never_popped c retired more k again

module _ {S V : Type 0} (P : Platform S V) {server : S} {s : Spec} (h : Holds P server s) where
  -- the text of a job stands at its key
  stored-Known : (id : String) (text : V) → P.get (job_key id) server ≡ some text → Known id s
  stored-Known id text e = found (s.job id) refl
    where
      found : (o : Option Job) → s.job id ≡ o → Known id s
      found none q =
          let absent : P.get (job_key id) server ≡ none =
            h.jobs id ∙ ap (λ (o : Option Job). Option.map P.stringify o) q in
          cc (e, absent)
      found (some j) q = (j, q)

  Known-stored :
      (id : String) (j : Job) → s.job id ≡ some j → P.get (job_key id) server ≡ some (P.stringify j)
  Known-stored id j e = h.jobs id ∙ ap (λ (o : Option Job). Option.map P.stringify o) e

-- The Redis server holds nothing for the queue when the process starts; commands interleave, are lost and
-- are executed again as they may, the MULTI of `enqueue` once at most. Once a job stands at its key, some job stands there for ever: under its own
-- identifier, and if it has a result, then one of this job that has ended.
pub stored_stays :
    {S V : Type 0} {P : Platform S V} (server : S) {p q : Process S}
    → IsFresh P server
    → Trace P (idle server) p
    → (id : String) (text : V) → P.get (job_key id) p.server ≡ some text
    → Trace P p q
    → (j : Job) × (P.get (job_key id) q.server ≡ some (P.stringify j)) × IsKept id j
stored_stays {P = P} server fresh reached id text e more =
    let h = Trace-Coherent fresh reached in
    let (k, (j, at_id)) =
      Trace-lasts (Known id) (λ s t e x. Change-Known {s = s} {t = t} id e x) more h
        (stored-Known P h.holds id text e) in
    (j, Known-stored P k.holds id j at_id, WellFormed-IsKept k.formed id j at_id)

-- The Redis server holds nothing for the queue when the process starts; commands interleave, are lost and
-- are executed again as they may, the MULTI of `enqueue` once at most. Of two jobs where the first stands at its key before the second does, the first is
-- never taken by RPOP once the second has been.
pub popped_in_turn :
    {S V : Type 0} {P : Platform S V} (server : S) {p q q' r r' : Process S}
    → IsFresh P server
    → Trace P (idle server) p
    → (a b : String) (text : V) → P.get (job_key a) p.server ≡ some text
    → P.get (job_key b) p.server ≡ none
    → Trace P p q
    → Pop P b q q'
    → Trace P q' r
    → (k : String) → Pop P k r r'
    → k ≢ a
popped_in_turn {P = P} server {p = p} fresh reached a b text at_a at_b more pop after k again =
    let h = Trace-Coherent fresh reached in
    let (c, turn) =
      Trace-lasts (InTurn b a) (λ s t. Change-InTurn b a) more h
        (record {
          known = stored-Known P h.holds a text at_a;
          order = behind-absent b a h.view.pending (not_waiting h);
        }) in
    let (ids, first) = popped_first P c b (taken_by pop) in
    let gone : waits a (tail_order c.view.pending) ≡ false =
      ap (λ l. waits a (tail_order l)) first
      ∙ (sym (ground (arith, eq_refl b)) ∙ ap (behind b a) (sym first) ∙ turn.order) in
    let (d, retired) = popped-Retired c pop a turn.known gone in
    never_popped d retired after k again
  where
    not_waiting : (h : Coherent P p) → waits b h.view.pending ≡ false
    not_waiting h = elim (Bool-cases (waits b h.view.pending)) [
      | inl waiting ↦
          let (j, at) = h.formed.present b waiting in
          absurd (cc (at_b, Known-stored P h.holds b j at))
      | inr n ↦ n
    ]
