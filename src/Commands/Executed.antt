-- ===== src/Commands/Executed.antt =====
-- One command of a call of api/src/services/queue.ts, executed by a server that holds an abstract queue.
use mathlib.Core.Option
use codehive.System.Kept.{WellFormed-IsKept}
use codehive.System.Kept.{IsCareful-IsKept}
use codehive.System.Changes.{put}
use codehive.System.Changes.{overwrite}
use codehive.System.Changes.{Change}
use codehive.Queue.Service.{job_key, truthy_text}
use mathlib.Core.Path.{subst}
use codehive.Types.{Job, ExecutionRequest}
use codehive.Errors.{Error}
use codehive.Prelude.Exec.{throw, ok, Result}
use codehive.Queue.Memory.{assign, tail_order, JobUpdates}
use codehive.System.Changes.{stay, NoTwice, drop_first, waits, add, WellFormed}
use codehive.Commands.Holds.{
  put-Holds, get-Holds, rpop-Holds, pop-Holds, add-Holds, first_id, Holds,
}
use codehive.Commands.Effects.{Adds, Fits}
use codehive.Queue.Spec.{submit, spec_call, Spec}
use codehive.Prelude.{
  [], false, sym, eq_refl, arith, ◌∙◌, refl, ap, true, ◌∷◌, List, none, some, ◌≡◌, Option, String,
}
use codehive.Queue.Platform.{Platform}
use codehive.Commands.{
  popping, changed_copy, storing, looking, looking, taking, change_reply, parsed_job, changing,
  pop_reply, answer, read_reply, going_on, adding, Command, IsLater,
}

-- the queue behind a command, and what the call that sent it does next
pub record Executed {S V : Type 0} (P : Platform S V) (now : String) (c : Command) (server : S)
    (s : Spec) : Type 0 where
  pub after : Spec
  pub effect : Change s after
  pub holds : Holds P (answer P now c server).1 after
  pub next : (d : Command) → going_on (answer P now c server).0 ≡ some d → Fits after d × IsLater d
  pub adds :
      (k : String) → Adds effect k → (at : String) × (r : ExecutionRequest) × (c ≡ adding k at r)

module _ {S V : Type 0} (P : Platform S V) where
  read_reply-ends : (o : Option V) → going_on (read_reply P o) ≡ none
  read_reply-ends none = refl
  read_reply-ends (some text) = parsed (P.parse text)
    where
      parsed : (r : Result Error Job) → going_on (parsed_job P r) ≡ none
      parsed (ok job) = refl
      parsed (throw e) = refl

module _ {S V : Type 0} (P : Platform S V) (now : String) {server : S} {s : Spec}
    (h : Holds P server s) (well : WellFormed s) where
  absurd_next : {o : Option Command} → o ≡ none → (d : Command) → o ≡ some d → Fits s d × IsLater d
  absurd_next n d e = cc

  popped-Fits :
      (ids : List String)
      → s.pending ≡ ids
      → (d : Command) → going_on (pop_reply P (first_id ids)) ≡ some d
      → Fits (record s { pending = tail_order s.pending }) d × IsLater d
  popped-Fits [] e d q = cc
  popped-Fits (id ∷ ids) e d q =
      let first : waits id s.pending ≡ true = ap (waits id) e ∙ ground (arith, eq_refl id) in
      let gone : waits id (tail_order s.pending) ≡ false =
        ap (λ l. waits id (tail_order l)) e ∙ (subst NoTwice e well.once).0 in
      let taken : taking id ≡ d = cc (q) in
      subst (λ x. Fits (record s { pending = tail_order s.pending }) x × IsLater x) taken
        (record { known = well.present id first; gone = gone }, tt)

  changed-Fits :
      (id : String) (u : JobUpdates)
      → Fits s (changing id u)
      → (o : Option Job) → s.job id ≡ o
      → (d : Command) → going_on (change_reply P now id u (Option.map P.stringify o)) ≡ some d
      → Fits s d × IsLater d
  changed-Fits id u f none e d q = cc
  changed-Fits id u f (some j) e d q =
      let copied : storing id (assign u now j) ≡ d =
        let sent : some (storing id (assign u now j)) ≡ some d =
          sym (ap (λ r. going_on (changed_copy P now id u r)) (P.parse-stringify j)) ∙ q in
        cc (sent) in
      subst (λ x. Fits s x × IsLater x) copied
        (((j, e), IsCareful-IsKept (f now) j (WellFormed-IsKept well id j e)), tt)

  pub answer-Executed : (c : Command) → Fits s c → Executed P now c server s
  unfolding answer spec_call
  answer-Executed (adding id at request) f = record {
    after = (spec_call (submit id at request) s).1;
    effect = add id at request f.1;
    holds = add-Holds P h id at request f.0;
    next = λ d e. cc;
    adds = λ k same. (at, request, ap (λ x. adding x at request) same);
  }
  answer-Executed popping f = record {
    after = record s { pending = tail_order s.pending };
    effect = drop_first;
    holds = pop-Holds P h;
    next = λ d e.
        popped-Fits s.pending refl d
          (ap (λ o. going_on (pop_reply P o)) (sym (rpop-Holds P h s.pending refl)) ∙ e);
    adds = λ k a. absurd a;
  }
  answer-Executed (taking id) f = record {
    after = s;
    effect = stay;
    holds = h;
    next = λ d e. absurd_next (read_reply-ends P (truthy_text P (P.get (job_key id) server))) d e;
    adds = λ k a. absurd a;
  }
  answer-Executed (looking id) f = record {
    after = s;
    effect = stay;
    holds = h;
    next = λ d e. absurd_next (read_reply-ends P (truthy_text P (P.get (job_key id) server))) d e;
    adds = λ k a. absurd a;
  }
  answer-Executed (changing id u) f = record {
    after = s;
    effect = stay;
    holds = h;
    next = λ d e.
        changed-Fits id u f (s.job id) refl d
          (ap (λ o. going_on (change_reply P now id u o)) (sym (get-Holds P h id)) ∙ e);
    adds = λ k a. absurd a;
  }
  answer-Executed (storing id job) f = record {
    after = overwrite id job s;
    effect = put id job f.0 f.1;
    holds = put-Holds P h id job;
    next = λ d e. cc;
    adds = λ k a. absurd a;
  }
