-- ===== src/Routes/Workers/Laws.antt =====
-- What api/src/routes/workers.ts answers.
use codehive.Http.{workers, reply}
use codehive.Prelude.{refl, [], ◌≡◌, String}
use codehive.Errors.{send_error}
use codehive.Prelude.Dict
use codehive.Routes.Workers.{no_workers, list_workers, get_worker}

-- Since no code writes the map, the server lists no workers, and answers 404 for every identifier,
-- whichever workers send heartbeats or take jobs.
pub workers_unknown :
    (id : String)
    → (list_workers no_workers ≡ reply 200 (workers [])) × ((get_worker id no_workers).code ≡ 404)
unfolding list_workers get_worker Dict.get Dict.values send_error
workers_unknown id = (refl, refl)
