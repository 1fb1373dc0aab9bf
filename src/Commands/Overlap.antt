-- ===== src/Commands/Overlap.antt =====
-- Two calls of `updateJob` on one job, whose GETs are both answered before either SET, and a MULTI of
-- `enqueue` that is executed twice.
use codehive.Queue.Spec.Redis.Relation.{job_key_ne}
use codehive.Queue.Service.{fresh_job, queue_key, truthy_text, job_key}
use codehive.Types.{ExecutionRequest, Job}
use codehive.Queue.Memory.{truthy, assign, JobUpdates}
use codehive.Prelude.{sym, ap, ◌∷◌, false, [], str_eq, refl, eq_refl, ◌∙◌, some, ◌≡◌, String}
use codehive.Commands.{
  pop_reply, taking, popping, adding, change_reply, storing, sends, changing, answer,
}
use codehive.Queue.Platform.{Platform}

-- Over Redis two updates of one job may both read it before either of them is stored. Then the SET that
-- comes last writes its copy of the job as it was, and nothing of the other update is left.
pub lost_update :
    {S V : Type 0} (P : Platform S V) (s : S) (id now now' at at' : String) (u v : JobUpdates)
    (job : Job)
    → P.get (job_key id) s ≡ some (P.stringify job)
    → ((answer P now (changing id u) s).0 ≡ sends (storing id (assign u now job)))
      × ((answer P now' (changing id v) s).0 ≡ sends (storing id (assign v now' job)))
      × (P.get
            (job_key id)
            (answer P at'
              (storing id (assign v now' job))
              (answer P at (storing id (assign u now job)) s).1).1
          ≡ some (P.stringify (assign v now' job)))
unfolding answer
lost_update P s id now now' at at' u v job e =
    (read now u, read now' v, P.get-set _ _ _ _ ∙ rw (eq_refl (job_key id)) refl)
  where
    read :
        (at : String) (x : JobUpdates)
        → change_reply P at id x (truthy_text P (P.get (job_key id) s))
          ≡ sends (storing id (assign x at job))
    read at x = rw (e, P.stringify-ne, P.parse-stringify) refl

-- the server behind a MULTI of `enqueue` that was executed twice
abbrev pub twice :
    {S V : Type 0} → Platform S V → String → String → ExecutionRequest → String → S → S
twice P id at request now s =
    (answer P now (adding id at request) (answer P now (adding id at request) s).1).1

twice_items :
    {S V : Type 0} (P : Platform S V) (s : S) (id at now : String) (request : ExecutionRequest)
    → P.items queue_key s ≡ []
    → P.items queue_key (twice P id at request now s) ≡ id ∷ id ∷ []
unfolding answer
twice_items {S} P s id at now request empty =
    pushed _ ∙ ap (λ l. id ∷ l) (pushed s ∙ ap (λ l. id ∷ l) empty)
  where
    pushed :
        (u : S)
        → P.items queue_key
            (P.lpush queue_key id (P.set (job_key id) (P.stringify (fresh_job id at request)) u))
          ≡ id ∷ P.items queue_key u
    pushed u =
        P.items-lpush _ _ _
        ∙ ap (λ l. id ∷ l) (P.items-set _ queue_key _ u (λ e. job_key_ne id (sym e)))

-- The MULTI of `enqueue` is executed on a server with an empty queue, its reply is lost, and ioredis sends
-- it again. Then two calls of `dequeue` behind each other are both handed the identifier of the job, and the
-- first of them leaves it at the end of the queue.
pub queued_twice :
    {S V : Type 0} (P : Platform S V) (s : S) (id at now now' : String) (request : ExecutionRequest)
    → str_eq id "" ≡ false
    → P.items queue_key s ≡ []
    → ((answer P now' popping (twice P id at request now s)).0 ≡ sends (taking id))
      × ((answer P now' popping (answer P now' popping (twice P id at request now s)).1).0
          ≡ sends (taking id))
unfolding answer
queued_twice P s id at now now' request named empty =
    let order = twice_items P s id at now request empty in
    let first = P.rpop-last queue_key (twice P id at request now s) (id ∷ []) id order in
    let left = P.items-rpop_last queue_key (twice P id at request now s) (id ∷ []) id order in
    let second =
      P.rpop-last queue_key (P.rpop queue_key (twice P id at request now s)).1 [] id left in
    (
      ap (λ o. pop_reply P (truthy o)) first ∙ rw named refl,
      ap (λ o. pop_reply P (truthy o)) second ∙ rw named refl,
    )
