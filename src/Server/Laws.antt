-- ===== src/Server/Laws.antt =====
-- What the start and the shutdown of api/src/index.ts keep.
use codehive.Prelude.{◌∙◌, ap, false, List, arith, ◌≡◌}
use codehive.Prelude.Exec.{ok}
use codehive.Server.{Process, Closers, shutdown, close_pool, close_redis}
use codehive.Observer.{Happening, follow, step, destroy}
use codehive.Observer.Silent.{destroyed-silent}

shutdown-observer :
    (c : Closers) (p : Process) → (shutdown c p).1.observer ≡ step destroy p.observer
unfolding shutdown close_pool close_redis
shutdown-observer c p = ground arith

-- After a shutdown no client of the WebSocket is sent anything, whichever of the calls that close the app,
-- the pool and Redis fail, whoever still connects and whatever is emitted.
pub shutdown-silent :
    (c : Closers) (p : Process) (hs : List Happening)
    → (follow hs (shutdown c p).1.observer).sent ≡ p.observer.sent
shutdown-silent c p hs =
    ap (λ o. (follow hs o).sent) (shutdown-observer c p) ∙ destroyed-silent p.observer hs

-- Where none of these calls fails, the shutdown leaves nothing open.
shutdown_closed :
    (c : Closers) (p : Process)
    → c.close_app ≡ ok tt
    → c.end_pool ≡ ok tt
    → c.quit_redis ≡ ok tt
    → ((shutdown c p).0 ≡ ok tt)
      × ((shutdown c p).1.app_open ≡ false)
      × ((shutdown c p).1.pool_open ≡ false)
      × ((shutdown c p).1.redis_open ≡ false)
unfolding shutdown close_pool close_redis
shutdown_closed c p a b d = ground arith
