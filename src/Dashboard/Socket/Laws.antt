-- ===== src/Dashboard/Socket/Laws.antt =====
-- `initWS` of dashboard/src/lib/stores.ts neither gives up nor connects twice.
use codehive.Prelude.{refl, true, false}
use codehive.Prelude.{◌∷◌, length-append, ◌∙◌, ap, suc, ◌++◌, Bool, true, arith, ◌≡◌, length, ◌+◌}
use codehive.Dashboard.Socket.{
  Sockets, Turn, Run, init_ws, on_close, on_error, closes, fails, fires, mounted,
}

Turn-one : {s t : Sockets} → Turn s t → s.live + length s.timers ≡ 1 → t.live + length t.timers ≡ 1
unfolding init_ws on_close on_error
Turn-one (closes s some_live) h = omega (arith, h, some_live)
Turn-one (fails s some_live) h = h
Turn-one (fires s delay before after made e) h =
    let same : length s.timers ≡ length before + suc (length after) =
      ap length e ∙ length-append before (delay ∷ after) in
    by_made made (omega (arith, length-append before after, same, h))
  where
    by_made :
        (made : Bool)
        → s.live + length (before ++ after) ≡ 0
        → (init_ws made (record s { timers = before ++ after })).live
            + length (init_ws made (record s { timers = before ++ after })).timers
          ≡ 1
    by_made true g = omega (arith, g)
    by_made false g = omega (arith, g)

-- Whatever the browser does and whatever fails, there is always either exactly one socket that is not
-- closed, or exactly one timer that will connect again, and never both.
pub Run-one : {s : Sockets} → Run s → s.live + length s.timers ≡ 1
unfolding init_ws
Run-one (mounted true) = refl
Run-one (mounted false) = refl
Run-one (Run.later r t) = Turn-one t (Run-one r)
