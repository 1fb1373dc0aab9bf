-- ===== src/Dashboard/Socket.antt =====
-- `initWS` of dashboard/src/lib/stores.ts: one connection at a time, with a timer for the next attempt. The
-- browser decides whether a socket can be made, when it fails or closes, and when a timer fires; a socket
-- closes once.
pub mod Laws
use codehive.Prelude.{◌++◌, true, false, [], ◌≡◌, ◌∷◌, ◌<◌, ◌-◌, Bool, List, ℕ, zero, suc, ◌+◌}

-- the sockets that are not closed yet, and the timers of `setTimeout` that wait with their delay
pub record Sockets : Type 0 where
  pub live : ℕ
  pub timers : List ℕ

-- `initWS`, where `new WebSocket` succeeds or throws
unfoldable pub init_ws : Bool → Sockets → Sockets
init_ws true s = record s { live = suc s.live }
init_ws false s = record s { timers = 5000 ∷ s.timers }

-- `ws.onclose`
unfoldable pub on_close : Sockets → Sockets
on_close s = record { live = s.live - 1; timers = 3000 ∷ s.timers }

-- `ws.onerror`: `ws.close()`, whose `close` event follows later
unfoldable pub on_error : Sockets → Sockets
on_error s = s

pub data Turn : Sockets → Sockets → Type 0 where
  closes : (s : Sockets) → 0 < s.live → Turn s (on_close s)
  fails : (s : Sockets) → 0 < s.live → Turn s (on_error s)
  -- a timer fires
  fires :
      (s : Sockets) (delay : ℕ) (before after : List ℕ) (made : Bool)
      → s.timers ≡ before ++ delay ∷ after
      → Turn s (init_ws made (record s { timers = before ++ after }))

-- from `onMount` of App.svelte on
pub data Run : Sockets → Type 0 where
  mounted : (made : Bool) → Run (init_ws made (record { live = 0; timers = [] }))
  later : {s t : Sockets} → Run s → Turn s t → Run t
