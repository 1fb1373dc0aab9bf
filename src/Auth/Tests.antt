-- ===== src/Auth/Tests.antt =====
-- The hook at concrete inputs.
use codehive.Prelude.{String, refl, none, ◌≡◌, some}
use codehive.Auth.{authorize, unauthorized, is_public}

abbrev pub secret : String
secret = "secret"

-- the WebSocket route asks for the key too
ws_asks : authorize (some "secret") "/ws" none ≡ unauthorized
unfolding authorize is_public
ws_asks = refl
