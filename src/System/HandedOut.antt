-- ===== src/System/HandedOut.antt =====
-- The jobs that workers are answered with, by the route of api/src/routes/worker-api.ts.
use mathlib.Core.Path.{subst}
use codehive.Prelude.{
  sym, ◌∙◌, ap, false, true, if◌then◌else◌, Bool, String, Option, some, none, refl, List, [], ◌∷◌,
  ◌≢◌, ◌≡◌,
}
use codehive.Prelude.Exec.{◌>>=◌, Result, ok}
use codehive.Errors.{Error}
use codehive.Http.{error_reply, Reply, reply, job}
use codehive.Types.{Job}
use codehive.Queue.World.{World, Ref, load}
use codehive.Queue.Platform.{Platform}
use codehive.Queue.Memory.{assign}
use codehive.Queue.Spec.{first_pending, IsFound}
use codehive.Queue.Spec.Agree.{started}
use codehive.Queue.Service.{dequeue, chosen}
use codehive.Queue.Spec.Serves.{dequeue-Serves}
use codehive.Routes.Execute.{SubmitSchema}
use codehive.Routes.WorkerApi.{job_reply, WorkerSchemas, next_job, claim, claim_found}
use codehive.Routes.WorkerApi.Laws.{next_job-claims, next_job-idle}
use codehive.Routes.Stats.{Doubles}
use codehive.System.{Step, Reach, Boots}
use codehive.System.Requests.{Reach-append, claim_found-Reach, catch-Reach, behind-Reach}
use codehive.System.Served.{ServesOn, ServesOn-Reach}
use codehive.System.Safety.{Sound, Reach-Sound, handed_out_once}

module _ {S V : Type 0} (P : Platform S V) where
  -- what `dequeue` hands out under a worker's request
  record HandsOut (id : String) (w : World S) : Type 0 where
    ref : Ref
    object : Job
    taken : (dequeue P w).0 ≡ ok (some ref)
    loaded : load (dequeue P w).1 ref ≡ some object
    same_id : object.id ≡ id

  -- the states behind a worker's request are those behind its `dequeue`
  next_job-behind :
      (now worker : String) (w : World S) → Reach P (dequeue P w).1 (next_job P now worker w).1
  unfolding next_job
  next_job-behind now worker w =
      catch-Reach (dequeue P >>= claim_found P now worker) error_reply w (
        behind-Reach (dequeue P) (claim_found P now worker) w
          (λ found e. claim_found-Reach P now worker found (dequeue P w).1))

  claimed_id :
      (now worker : String) (b : Bool) (k j : Job) (r : Result Error Reply)
      → r ≡ ok (job_reply (some (if b then k else assign (claim worker) now k)))
      → r ≡ ok (reply 200 (job j))
      → k.id ≡ j.id
  unfolding assign
  claimed_id now worker true k j r e f = cc
  claimed_id now worker false k j r e f =
      let same : assign (claim worker) now k ≡ j = cc in ap (λ (i : Job). i.id) same

  -- a worker that is answered with a job gets the one that its `dequeue` hands out
  answered-HandsOut :
      (now worker : String) (w : World S) (j : Job)
      → Sound P w
      → (next_job P now worker w).0 ≡ ok (reply 200 (job j))
      → HandsOut j.id w
  answered-HandsOut now worker w j h e = by_order h.view.pending refl
    where
      idle :
          (ids : List String)
          → h.view.pending ≡ ids
          → first_pending ids h.view.job ≡ none
          → HandsOut j.id w
      idle ids q n =
          let refused = (next_job-idle P now worker h.serves (rw q n)).0 in absurd (cc (e, refused))

      first :
          (ids : List String) (k : Job)
          → h.view.pending ≡ k.id ∷ ids
          → h.view.job k.id ≡ some k
          → HandsOut j.id w
      first ids k q known =
          let found = (dequeue-Serves P h.serves).0 in
          let (r, taken, loaded) : (r : Ref) × ((dequeue P w).0 ≡ ok (some r))
              × (load (dequeue P w).1 r ≡ some k) =
            subst (λ o. IsFound (dequeue P w).0 (dequeue P w).1 o)
              (ap (λ l. first_pending l h.view.job) q ∙ known) found in
          record {
            ref = r;
            object = k;
            taken = taken;
            loaded = loaded;
            same_id =
                claimed_id now worker (chosen w) k j _
                  (next_job-claims P now worker h.serves k ids q known).0 e;
          }

      by_order : (ids : List String) → h.view.pending ≡ ids → HandsOut j.id w
      by_order [] q = idle [] q refl
      by_order (id ∷ ids) q = by_job (h.view.job id) refl
        where
          by_job : (o : Option Job) → h.view.job id ≡ o → HandsOut j.id w
          by_job none n = idle (id ∷ ids) q n
          by_job (some k) known =
              let keyed = h.formed.keyed id k known in
              first ids k (q ∙ ap (λ x. x ∷ ids) (sym keyed)) (ap h.view.job keyed ∙ known)

-- The server process starts without a Redis host, or with a server that holds nothing under the queue's
-- keys, and answers requests while background runs write; the identifiers that its submissions draw are
-- not empty and no job has them. A worker is answered with a job, and a later request of a worker with a
-- job too: the two have different identifiers, whatever comes between.
pub workers_apart :
    {S V B A F : Type 0} (P : Platform S V) (Z : SubmitSchema B) (W : WorkerSchemas B)
    (query : String → Result Error A) (N : Doubles F) (time_of : String → F) (host : Option String)
    (server : S) {u v : World S}
    → Boots P host server
    → ServesOn P Z W query N time_of (started host server) u
    → (now worker : String) (j : Job) → (next_job P now worker u).0 ≡ ok (reply 200 (job j))
    → ServesOn P Z W query N time_of (next_job P now worker u).1 v
    → (now' worker' : String) (i : Job) → (next_job P now' worker' v).0 ≡ ok (reply 200 (job i))
    → i.id ≢ j.id
workers_apart P Z W query N time_of host server {u} {v} boots before now worker j first between now'
      worker' i second =
    let reached = ServesOn-Reach P Z W query N time_of before in
    let later = ServesOn-Reach P Z W query N time_of between in
    let behind = Reach-append (next_job-behind P now worker u) later in
    let up_to_v = Reach-append (Reach.later reached Step.taken) behind in
    let a = answered-HandsOut P now worker u j (Reach-Sound host server boots reached) first in
    let b = answered-HandsOut P now' worker' v i (Reach-Sound host server boots up_to_v) second in
    λ same.
      handed_out_once host server boots reached a.ref a.object a.taken a.loaded behind b.ref
        b.object b.taken b.loaded (b.same_id ∙ same ∙ sym a.same_id)
