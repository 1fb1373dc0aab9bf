-- ===== src/System/Turns.antt =====
-- The order in which the server process hands out jobs, when submissions, runs and workers interleave.
use codehive.System.Kept.{overwrite-Known}
use codehive.Queue.Spec.Agree.{started}
use codehive.Queue.Spec.Serves.{enqueue-Serves}
use codehive.System.Simulates.{not_known}
use codehive.Routes.Execute.{request_of}
use codehive.Prelude.Exec.{ok}
use codehive.System.{Reach, Boots}
use codehive.System.Safety.{never_again, dequeue-Retired, first_is, Reach-lasts, Reach-Sound, Sound}
use codehive.Queue.Service.{dequeue, fresh_job, enqueue, get_job}
use codehive.Queue.World.{load, Ref, World}
use codehive.Queue.Platform.{Platform}
use codehive.System.Formed.{Change-WellFormed, waits-append}
use codehive.Queue.Memory.{tail_order}
use codehive.Types.{Job}
use codehive.System.Lasting.{Change-Known, Known}
use codehive.System.Changes.{stay, put, drop_first, write, add, Change, waits}
use codehive.Queue.Spec.{submit, first_pending, spec_call, Spec}
use codehive.Prelude.{
  ◌≢◌, inr, ◌∙◌, eq_iff, eq_refl, ap, refl, inl, arith, [], if◌then◌else◌, some, Bool-cases, ◌++◌,
  ◌∷◌, none, false, Option, ◌≡◌, str_eq, Bool, List, String,
}

-- whether the second identifier waits somewhere behind the first
abbrev pub behind : String → String → List String → Bool
behind b a [] = false
behind b a (i ∷ ids) = let rest = behind b a ids in if str_eq i b then waits a ids else rest

behind-append :
    (b a i : String) (ids : List String)
    → str_eq i a ≡ false
    → behind b a ids ≡ false
    → behind b a (ids ++ i ∷ []) ≡ false
behind-append b a i [] n h = ground arith
behind-append b a i (k ∷ ids) n h = ground (arith, behind-append b a i ids n, waits-append a i ids)

pub behind-absent :
    (b a : String) (ids : List String) → waits b ids ≡ false → behind b a ids ≡ false
behind-absent b a [] n = refl
behind-absent b a (k ∷ ids) n = ground (arith, behind-absent b a ids)

behind-none : (b a : String) (ids : List String) → waits a ids ≡ false → behind b a ids ≡ false
behind-none b a [] n = refl
behind-none b a (k ∷ ids) n = ground (arith, behind-none b a ids)

behind-tail :
    (b a : String) (ids : List String)
    → behind b a ids ≡ false
    → behind b a (tail_order ids) ≡ false
behind-tail b a [] n = refl
behind-tail b a (k ∷ ids) n = ground (arith, behind-none b a ids)

-- the second identifier does not wait behind the first, and will not, since its job is known
pub record InTurn (b a : String) (s : Spec) : Type 0 where
  pub known : Known a s
  pub order : behind b a s.pending ≡ false

pub other_than : (s : Spec) (i a : String) → s.job i ≡ none → Known a s → str_eq i a ≡ false
other_than s i a new (j, known) = elim (Bool-cases (str_eq i a)) [
  | inl same ↦
      let at_i : s.job i ≡ some j = ap s.job ((eq_iff i a).0 same) ∙ known in
      absurd (cc (new, at_i))
  | inr other ↦ other
]

pub Change-InTurn : {s t : Spec} (b a : String) → Change s t → InTurn b a s → InTurn b a t
unfolding spec_call
Change-InTurn {s} b a (add i now request new) r = record {
  known = Change-Known {s = s} a (add i now request new) r.known;
  order = behind-append b a i s.pending (other_than s i a new r.known) r.order;
}
Change-InTurn {s} b a drop_first r = record {
  known = r.known;
  order = behind-tail b a s.pending r.order;
}
Change-InTurn {s} b a (write i f c) r = record {
  known = Change-Known {s = s} a (write i f c) r.known;
  order = r.order;
}
Change-InTurn {s} b a (put i j there good) r = record {
  known = overwrite-Known s i j a r.known;
  order = r.order;
}
Change-InTurn b a stay r = r

-- a job that is handed out leaves nobody behind it who should have been in front
pub head-InTurn :
    (ids : List String) (job : String → Option Job) (j : Job) (a : String)
    → ((k : String) (i : Job) → job k ≡ some i → i.id ≡ k)
    → first_pending ids job ≡ some j
    → behind j.id a ids ≡ false
    → waits a (tail_order ids) ≡ false
head-InTurn [] job j a keyed e n = refl
head-InTurn (i ∷ ids) job j a keyed e n =
    let same = keyed i j e in ground (arith, n, eq_refl i, same)

-- an accepted submission
abbrev pub NewJob : {S V : Type 0} → Platform S V → String → World S → Type 0
NewJob P id w = (str_eq id "" ≡ false) × ((get_job P id w).0 ≡ ok none)

module _ {S V : Type 0} (P : Platform S V) (now id language : String) {w : World S} (h : Sound P w)
    (new : NewJob P id w) where
  submitted_view : Spec
  submitted_view = (spec_call (submit id now (request_of language)) h.view).1

  enqueue-Change : Change h.view submitted_view
  unfolding submitted_view
  enqueue-Change = add id now (request_of language) (not_known P h.serves id new.1)

  enqueue-Sound : Sound P (enqueue P id now (request_of language) w).1
  unfolding submitted_view
  enqueue-Sound = record {
    view = submitted_view;
    serves = (enqueue-Serves P id now (request_of language) new.0 h.serves).1;
    formed = Change-WellFormed enqueue-Change h.formed;
  }

  enqueue-Known : Known id submitted_view
  unfolding submitted_view spec_call
  enqueue-Known = (fresh_job id now (request_of language), rw (eq_refl id) refl)

  enqueue-InTurn : (a : String) → Known a h.view → InTurn id a submitted_view
  unfolding submitted_view spec_call
  enqueue-InTurn a known = record {
    known = Change-Known a enqueue-Change known;
    order =
        behind-append id a id h.view.pending (other_than h.view id a unknown known)
          (behind-absent id a h.view.pending absent);
  }
    where
      unknown : h.view.job id ≡ none
      unknown = not_known P h.serves id new.1

      absent : waits id h.view.pending ≡ false
      absent = elim (Bool-cases (waits id h.view.pending)) [
        | inl waiting ↦ let (j, at_id) = h.formed.present id waiting in absurd (cc (unknown, at_id))
        | inr n ↦ n
      ]

-- The server process starts without a Redis host, or with a server that holds nothing under the
-- queue's keys. Two jobs are accepted one after the other, each under an identifier that is not empty
-- and names no job. Once the second has been handed out, the first is never handed out afterwards, whatever
-- calls come between: jobs are handed out in the order in which they were submitted.
pub handed_out_in_turn :
    {S V : Type 0} {P : Platform S V} (host : Option String) (server : S) {w u v x : World S}
    → Boots P host server
    → Reach P (started host server) w
    → (a now_a language_a : String) → NewJob P a w
    → Reach P (enqueue P a now_a (request_of language_a) w).1 u
    → (b now_b language_b : String) → NewJob P b u
    → Reach P (enqueue P b now_b (request_of language_b) u).1 v
    → (q : Ref) (j : Job) → (dequeue P v).0 ≡ ok (some q)
    → load (dequeue P v).1 q ≡ some j
    → j.id ≡ b
    → Reach P (dequeue P v).1 x
    → (p : Ref) (i : Job) → (dequeue P x).0 ≡ ok (some p)
    → load (dequeue P x).1 p ≡ some i
    → i.id ≢ a
unfolding enqueue-Sound submitted_view
handed_out_in_turn {P = P} host server boots r a now_a language_a IsNew-a more b now_b language_b
      IsNew-b between q j taken is_j is_b after p i taken' is_i =
    let h = Reach-Sound host server boots r in
    let (hu, known) =
      Reach-lasts (Known a) (λ s t. Change-Known a) more
        (enqueue-Sound P now_a a language_a h IsNew-a)
        (enqueue-Known P now_a a language_a h IsNew-a) in
    let (hv, turn) =
      Reach-lasts (InTurn b a) (λ s t. Change-InTurn b a) between
        (enqueue-Sound P now_b b language_b hu IsNew-b)
        (enqueue-InTurn P now_b b language_b hu IsNew-b a known) in
    let gone : waits a (tail_order hv.view.pending) ≡ false =
      head-InTurn hv.view.pending hv.view.job j a hv.formed.keyed (first_is P hv q j taken is_j)
        (ap (λ k. behind k a hv.view.pending) is_b ∙ turn.order) in
    let (hx, retired) =
      dequeue-Retired P hv q j taken is_j a (record { known = turn.known; gone = gone }) after in
    never_again P hx retired p i taken' is_i
