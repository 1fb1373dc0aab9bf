-- ===== src/Dashboard/App/Laws.antt =====
-- App.svelte against dashboard/src/lib/stores.ts.
use codehive.Prelude.{refl, length, ◌≡◌}
use codehive.Dashboard.Stores.{Stores, online_workers}
use codehive.Dashboard.App.{online_count}

-- The count in the header is that of the derived store `onlineWorkers`.
pub online_count-length : {D : Type 0} (s : Stores D) → online_count s ≡ length (online_workers s)
unfolding online_count online_workers
online_count-length s = refl
