-- ===== src/System/Shown.antt =====
-- What the page of dashboard/src/routes/Executions.svelte shows of a submission, when it polls the server
-- process while that goes on.
use codehive.System.Lasting.{Change-Known, Known}
use codehive.System.Polls.{result_of-own, get_status-known, polled_job}
use codehive.Dashboard.Page.{poll}
use codehive.Dashboard.Page.Poll.{poll-Finds, Finds}
use codehive.Routes.WorkerApi.{has_ended}
use Prim.Native.String.{◌++◌ as str_append}
use codehive.Http.{result, reply}
use codehive.System.Safety.{Reach-Sound, Reach-lasts, Sound}
use codehive.Routes.Execute.{result_of, get_status}
use codehive.System.Changes.{Change}
use codehive.Queue.Spec.Agree.{started}
use codehive.Queue.Spec.{Spec}
use codehive.Types.{ExecutionResult}
use codehive.System.{Boots, Reach}
use codehive.Dashboard.Stores.{Execution}
use codehive.Queue.World.{World}
use codehive.Prelude.{◌<◌, none, zero, true, ◌≡◌, suc, Option, ℕ, String}
use codehive.Queue.Platform.{Platform}
use codehive.Dashboard.Client.{
  Init, Printing, Response, get_execution, execution_received, request, base, execution_path,
  answer_of,
}
use codehive.Prelude.Exec.{ok, throw, Result}

-- a response that is a success with this result
abbrev pub Delivers : Result String (Response Execution) → ExecutionResult → Type 0
Delivers (throw e) r = ⊥
Delivers (ok res) r = (res.is_ok ≡ true) × (res.json ≡ ok (execution_received r))

request-Delivers :
    (print : Printing) (fetch : String → Option Init → Result String (Response Execution))
    (id : String) (r : ExecutionResult)
    → Delivers (fetch (str_append base (execution_path id)) none) r
    → get_execution print fetch id ≡ ok (execution_received r)
unfolding get_execution request
request-Delivers print fetch id r d =
    answer_of-Delivers (fetch (str_append base (execution_path id)) none) d
  where
    answer_of-Delivers :
        (a : Result String (Response Execution))
        → Delivers a r
        → answer_of print a ≡ ok (execution_received r)
    answer_of-Delivers (throw e) d = absurd d
    answer_of-Delivers (ok res) (is_ok, json) = rw is_ok json

module _ {S V : Type 0} {P : Platform S V} (w : ℕ → World S)
    (goes_on : (i : ℕ) → Reach P (w i) (w (suc i))) where
  later-lasts :
      (Q : Spec → Type 0)
      → ((s t : Spec) → Change s t → Q s → Q t)
      → (h : Sound P (w 0)) → Q h.view
      → (j : ℕ) → (k : Sound P (w j)) × Q k.view
  later-lasts Q keep h q zero = (h, q)
  later-lasts Q keep h q (suc j) =
      let (k, q') = later-lasts Q keep h q j in Reach-lasts Q keep (goes_on j) k q'

-- The server process starts without a Redis host, or with a server that holds nothing under the
-- queue's keys. The page polls a job that the server knows, at moments between which any calls may
-- come; no request fails or is refused. Where a poll, one of the first 60, is answered with a result
-- that has ended, the loop stops there at the latest, and shows a result of this job that has ended.
pub page_shows_result :
    {S V : Type 0} {P : Platform S V} (host : Option String) (server : S) (print : Printing)
    (fetch : ℕ → String → Option Init → Result String (Response Execution)) (id : String)
    (w : ℕ → World S)
    → Boots P host server
    → Reach P (started host server) (w 0)
    → ((i : ℕ) → Reach P (w i) (w (suc i)))
    → ((i : ℕ) (r : ExecutionResult)
        → (get_status P id (w i)).0 ≡ ok (reply 200 (result r))
        → Delivers (fetch i (str_append base (execution_path id)) none) r)
    → (first : ExecutionResult) → (get_status P id (w 0)).0 ≡ ok (reply 200 (result first))
    → (k : ℕ) (r : ExecutionResult) → k < 60
    → (get_status P id (w k)).0 ≡ ok (reply 200 (result r))
    → has_ended r.status ≡ true
    → Finds (λ exec. exec.id ≡ id) (suc k) (poll (λ i. get_execution print (fetch i) id))
page_shows_result {P = P} host server print fetch id w b reached goes_on delivers first at_first k r
      l at_k over =
    let h = Reach-Sound host server b reached in
    let (j, known, is_first, named) = polled_job host server b reached id first at_first h in
    poll-Finds (λ exec. exec.id ≡ id) k (λ i. get_execution print (fetch i) id) l
      (λ i m.
        let (sound, (job, at_id)) =
          later-lasts w goes_on (Known id) (λ s t. Change-Known id) h (j, known) i in
        (
          execution_received (result_of job),
          request-Delivers print (fetch i) id (result_of job)
              (delivers i (result_of job) (get_status-known sound.serves id job named at_id)),
          result_of-own sound.formed id job at_id,
        ))
      (execution_received r) (request-Delivers print (fetch k) id r (delivers k r at_k)) over
