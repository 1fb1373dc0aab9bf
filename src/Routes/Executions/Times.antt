-- ===== src/Routes/Executions/Times.antt =====
-- The comparison of times in `getJobs` and `getJobCount` of api/src/services/queue.ts.
use Prim.Native.String.compare
use Prim.Native.String.{[], ◌∷◌}
use text.Mathlib.Text.{is_lt}
use codehive.Prelude.{◌≡◌, String, str_eq, false, ap, not}
use codehive.Queue.Memory.{text_ge}

-- the empty time of a missing job is before every other
pub text_ge-empty : (t : String) → str_eq t "" ≡ false → text_ge "" t ≡ false
unfolding text_ge
text_ge-empty [] n = cc
text_ge-empty (c ∷ t) n = ap (λ o. not (is_lt o)) (compare.nil-cons c t)
