-- ===== src/System/Safety.antt =====
-- What holds of the server process in every state that it reaches.
use codehive.Queue.Memory.{tail_order}
use codehive.Prelude.Exec.{ok}
use codehive.Queue.Service.{dequeue}
use codehive.Queue.Spec.Serves.{dequeue-Serves, Serves}
use codehive.Types.{Job}
use codehive.Prelude.{
  false≢true, ap, ◌∙◌, ◌≢◌, eq_refl, sym, refl, [], ◌∷◌, List, none, false, inr, true, some, inl,
  ◌≡◌, String, Option,
}
use codehive.Queue.World.{load, Ref, World}
use codehive.Queue.Spec.{IsFound, first_pending, Spec}
use codehive.Queue.Spec.Agree.{started-Stores, started-Implements, started, no_jobs}
use codehive.Queue.Platform.{Platform}
use codehive.System.{Step, Reach, Boots, Undivided}
use codehive.System.Changes.{Change, drop_first, WellFormed, waits, NoTwice, IsWhole}
use codehive.System.Formed.{Change-WellFormed}
use codehive.System.Lasting.{Retired, Change-Retired}
use codehive.System.Simulates.{Step-Change}

-- a server process that keeps a well-formed abstract queue
pub record Sound {S V : Type 0} (P : Platform S V) (w : World S) : Type 0 where
  pub view : Spec
  pub serves : Serves P w view
  pub formed : WellFormed view

Step-Sound : {S V : Type 0} {P : Platform S V} {w v : World S} → Step P w v → Sound P w → Sound P v
Step-Sound st h =
    let (t, change, next, _) = Step-Change st h.serves in
    record { view = t; serves = next; formed = Change-WellFormed change h.formed }

pub no_jobs-WellFormed : WellFormed no_jobs
no_jobs-WellFormed = record {
  keyed = λ k j e. cc;
  present = λ k e. cc;
  once = tt;
  ended = λ k j r e q. cc;
  over = λ k j e q. cc;
}

started-Sound :
    {S V : Type 0} (P : Platform S V) (host : Option String) (server : S)
    → Boots P host server
    → Sound P (started host server)
started-Sound P host server (inl off) = record {
  view = no_jobs;
  serves = inl (started-Implements host server off);
  formed = no_jobs-WellFormed;
}
started-Sound P host server (inr on) = record {
  view = no_jobs;
  serves = inr (started-Stores P host server on.0 on.1);
  formed = no_jobs-WellFormed;
}

-- The server process starts without a Redis host, or with a server that holds nothing under the
-- queue's keys. In every state that it reaches, the queue behaves as an abstract queue in which every
-- job stands under its own identifier, a waiting identifier names a job and waits once, a result is
-- one of its own job and has ended, and a job whose status has ended has a result.
pub Reach-Sound :
    {S V : Type 0} {P : Platform S V} (host : Option String) (server : S) {w : World S}
    → Boots P host server
    → Reach P (started host server) w
    → Sound P w
Reach-Sound {P = P} host server b Reach.here = started-Sound P host server b
Reach-Sound host server b (Reach.later r st) = Step-Sound st (Reach-Sound host server b r)

-- the object that `dequeue` returned, in the abstract queue
module _ {S V : Type 0} (P : Platform S V) {w : World S} (h : Sound P w) (q : Ref) (j : Job)
    (taken : (dequeue P w).0 ≡ ok (some q)) (is_j : load (dequeue P w).1 q ≡ some j) where
  pub first_is : first_pending h.view.pending h.view.job ≡ some j
  first_is = matched (first_pending h.view.pending h.view.job) (dequeue-Serves P h.serves).0
    where
      matched : (o : Option Job) → IsFound (dequeue P w).0 (dequeue P w).1 o → o ≡ some j
      matched none f = cc (taken, f)
      matched (some i) (p, at_p, is_i) =
          let same : p ≡ q = cc (taken, at_p) in sym is_i ∙ ap (load (dequeue P w).1) same ∙ is_j

head_of :
    (ids : List String) (job : String → Option Job) (j : Job)
    → ((k : String) (i : Job) → job k ≡ some i → i.id ≡ k)
    → NoTwice ids
    → first_pending ids job ≡ some j
    → (waits j.id ids ≡ true) × (waits j.id (tail_order ids) ≡ false) × (job j.id ≡ some j)
head_of [] job j keyed n e = cc
head_of (i ∷ ids) job j keyed (m, n) e =
    (rw (keyed i j e) (rw (eq_refl i) refl), rw (keyed i j e) m, ap job (keyed i j e) ∙ e)

module _ {S V : Type 0} {P : Platform S V} where
  pub Reach-lasts :
      (Q : Spec → Type 0)
      → ((s t : Spec) → Change s t → Q s → Q t)
      → {w v : World S} → Reach P w v
      → (h : Sound P w) → Q h.view
      → (k : Sound P v) × Q k.view
  Reach-lasts Q keep Reach.here h q = (h, q)
  Reach-lasts Q keep (Reach.later before st) h q =
      let (k, q') = Reach-lasts Q keep before h q in
      let (t, change, next, _) = Step-Change st k.serves in
      (
        record { view = t; serves = next; formed = Change-WellFormed change k.formed },
        keep k.view t change q',
      )

  -- what only whole changes keep lasts while no update is divided
  pub Undivided-lasts :
      (Q : Spec → Type 0)
      → ((s t : Spec) (c : Change s t) → IsWhole c → Q s → Q t)
      → {w v : World S} (more : Reach P w v) → Undivided P more
      → (h : Sound P w) → Q h.view
      → (k : Sound P v) × Q k.view
  Undivided-lasts Q keep Reach.here u h q = (h, q)
  Undivided-lasts Q keep (Reach.later before st) u h q =
      let (k, q') = Undivided-lasts Q keep before u.0 h q in
      let (t, change, next, whole) = Step-Change st k.serves in
      (
        record { view = t; serves = next; formed = Change-WellFormed change k.formed },
        keep k.view t change (whole u.1) q',
      )

module _ {S V : Type 0} (P : Platform S V) {w : World S} (h : Sound P w) (q : Ref) (j : Job)
    (taken : (dequeue P w).0 ≡ ok (some q)) (is_j : load (dequeue P w).1 q ≡ some j) where
  -- the job that was handed out waited, and is retired where its identifier waits no more
  pub first_waited : waits j.id h.view.pending ≡ true
  first_waited =
      (head_of h.view.pending h.view.job j h.formed.keyed h.formed.once
        (first_is P h q j taken is_j)).0

  pub first-Retired : Retired j.id (record h.view { pending = tail_order h.view.pending })
  first-Retired =
      let (_, waits_no_more, known) =
        head_of h.view.pending h.view.job j h.formed.keyed h.formed.once
          (first_is P h q j taken is_j) in
      record { known = (j, known); gone = waits_no_more }

  -- what holds behind the call holds of the state that it leaves, and lasts
  pub dequeue-Retired :
      (id : String) {v : World S}
      → Retired id (record h.view { pending = tail_order h.view.pending })
      → Reach P (dequeue P w).1 v
      → (k : Sound P v) × Retired id k.view
  dequeue-Retired id r more =
      Reach-lasts (Retired id) (λ s t. Change-Retired id) more
        (record {
          view = record h.view { pending = tail_order h.view.pending };
          serves = (dequeue-Serves P h.serves).1;
          formed = Change-WellFormed drop_first h.formed;
        })
        r

-- an identifier that is retired is not handed out
pub never_again :
    {S V : Type 0} (P : Platform S V) {v : World S} {id : String} (k : Sound P v)
    → Retired id k.view
    → (p : Ref) (i : Job) → (dequeue P v).0 ≡ ok (some p)
    → load (dequeue P v).1 p ≡ some i
    → i.id ≢ id
never_again P k retired p i taken is_i same = false≢true (
    sym retired.gone
    ∙ ap (λ id. waits id k.view.pending) (sym same)
    ∙ first_waited P k p i taken is_i)

-- The server process starts without a Redis host, or with a server that holds nothing under the
-- queue's keys. From any state that it reaches: once `dequeue` has handed out a job, no later
-- `dequeue` hands out a job with the same identifier, whatever calls come between.
pub handed_out_once :
    {S V : Type 0} {P : Platform S V} (host : Option String) (server : S) {w v : World S}
    → Boots P host server
    → Reach P (started host server) w
    → (q : Ref) (j : Job) → (dequeue P w).0 ≡ ok (some q)
    → load (dequeue P w).1 q ≡ some j
    → Reach P (dequeue P w).1 v
    → (p : Ref) (i : Job) → (dequeue P v).0 ≡ ok (some p)
    → load (dequeue P v).1 p ≡ some i
    → i.id ≢ j.id
handed_out_once {P = P} host server b r q j taken is_j more p i taken' is_i same =
    let h = Reach-Sound host server b r in
    let (k, retired) =
      dequeue-Retired P h q j taken is_j j.id (first-Retired P h q j taken is_j) more in
    never_again P k retired p i taken' is_i same
