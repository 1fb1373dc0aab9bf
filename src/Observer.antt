-- ===== src/Observer.antt =====
-- api/src/services/ws-observer.ts, with the type of the events of api/src/services/events.ts: the WebSocket
-- clients that follow the event bus. A socket is named by the identifier that its connection draws; whether
-- it is open is the state of the WebSocket library, which may change it at any time. What other subscribers
-- of the bus do is in Events. What a socket was sent is kept in a log.
pub mod Deliveries
pub mod Receives
pub mod Silent
pub mod Tests
use codehive.Prelude.{
  String, Option, none, some, Bool, true, false, ◌&&◌, not, str_eq, List, [], ◌∷◌, ◌++◌,
  if◌then◌else◌,
}
use codehive.Prelude.Int.{ℤ}
use codehive.Prelude.Dict
use codehive.Queue.Memory.{truthy}

pub record ExecutionEvent : Type 0 where
  pub job_id : String
  pub status : String
  pub stdout : Option String
  pub stderr : Option String
  pub exit_code : Option ℤ
  pub timestamp : String

-- `{ type: 'execution_update', payload: event }`
pub record Message : Type 0 where
  pub type : String
  pub payload : ExecutionEvent

abbrev pub message_of : ExecutionEvent → Message
message_of e = record { type = "execution_update"; payload = e }

pub record WsClient : Type 0 where
  pub id : String
  pub job_filter : Option String

-- `subscribed` where the observer's callback is on the bus
pub record Observer : Type 0 where
  pub subscribed : Bool
  pub clients : Dict.Dict WsClient
  pub is_open : String → Bool
  pub sent : List (String × Message)

-- what happens to the observer
pub data Happening : Type 0 where
  connect : String → Option String → Happening
  closed : String → Happening
  failed : String → Happening
  -- the library changes `readyState`
  ready : String → Bool → Happening
  emit : ExecutionEvent → Happening
  destroy : Happening

-- not `client.jobFilter && client.jobFilter !== jobId`
abbrev pub passes : Option String → String → Bool
passes none job = true
passes (some f) job = str_eq f job

abbrev pub wants : Option String → ExecutionEvent → Bool
wants filter e = passes (truthy filter) e.job_id

-- the loop of `broadcast`
unfoldable pub deliveries :
    (String → Bool) → ExecutionEvent → Dict.Dict WsClient → List (String × Message)
deliveries is_open e [] = []
deliveries is_open e ((k, c) ∷ cs) =
    let rest = deliveries is_open e cs in
    if wants c.job_filter e && is_open k then (k, message_of e) ∷ rest else rest

unfoldable pub broadcast : ExecutionEvent → Observer → Observer
broadcast e o = record o { sent = o.sent ++ deliveries o.is_open e o.clients }

-- `init`
abbrev pub initial : Observer
initial = record { subscribed = true; clients = []; is_open = λ k. false; sent = [] }

-- `closed` and `failed` are the two handlers of a socket; `destroy` closes the sockets of all clients.
unfoldable pub step : Happening → Observer → Observer
unfolding broadcast
step (connect id filter) o = record o {
  clients = Dict.put id (record { id = id; job_filter = filter }) o.clients;
  is_open = λ k. if str_eq id k then true else o.is_open k;
}
step (closed id) o = record o { clients = Dict.delete id o.clients }
step (failed id) o = record o { clients = Dict.delete id o.clients }
step (ready id b) o = record o { is_open = λ k. if str_eq id k then b else o.is_open k }
step (emit e) o = if o.subscribed then broadcast e o else o
step destroy o = record o {
  subscribed = false;
  clients = [];
  is_open = λ k. o.is_open k && is_absent (Dict.get k o.clients);
}
  where
    is_absent : Option WsClient → Bool
    is_absent none = true
    is_absent (some c) = false

unfoldable pub follow : List Happening → Observer → Observer
follow [] o = o
follow (h ∷ hs) o = follow hs (step h o)
