-- ===== src/Dashboard/App.antt =====
-- dashboard/src/App.svelte: the navigation and the header, and dashboard/src/routes/Dashboard.svelte: the
-- metrics and the live feed.
pub mod Laws
use codehive.Prelude.Int.{pos}
use codehive.Prelude.{
  zero, str_eq, if◌then◌else◌, true, false, none, suc, keep, [], ◌++◌, some, Bool, length, ◌∷◌,
  Option, ℕ, String, List,
}
use Prim.Native.String.{◌++◌ as str_append}
use codehive.Dashboard.Stores.{Stores, Execution, Worker, is_online}
use codehive.Dashboard.Client.{Printing, format_duration}
use codehive.Dashboard.Badge.{Shown, Badge, badge}
use codehive.Dashboard.Card.{card}

pub data View : Type 0 where
  dashboard executions workers settings : View

abbrev pub nav : List (View × String × String)
nav =
    (dashboard, "Dashboard", "◉")
    ∷ (executions, "Executions", "▷")
    ∷ (workers, "Workers", "⚙")
    ∷ (settings, "Settings", "⚡")
    ∷ []

-- the title of the header
abbrev pub title : View → String
title dashboard = "Dashboard"
title executions = "Executions"
title workers = "Workers"
title settings = "Settings"

-- `onlineCount > 0 ? "online" : "offline"`
abbrev pub count_status : ℕ → String
count_status zero = "offline"
count_status (suc n) = "online"

-- `onlineCount !== 1 ? 's' : ''`
abbrev pub plural : ℕ → String
plural (suc zero) = ""
plural _ = "s"

module _ {D : Type 0} where
  -- `onlineCount`
  unfoldable pub online_count : Stores D → ℕ
  online_count s = length (keep (λ w. is_online w.status) s.workers)

  -- the badge of the header
  unfoldable pub header_badge : Printing → Stores D → Badge
  unfolding online_count badge
  header_badge print s =
      let n = online_count s in
      badge (count_status n)
        (some (str_append (print.whole (pos n)) (str_append " worker" (plural n))))

-- `onclick={() => currentView.set(item.id)}`
abbrev pub choose : View × String × String → View → View
choose item current = item.0

-- `DashboardStats`; the rate is a double
pub record Stats (F : Type 0) : Type 0 where
  pub executions_24h : ℕ
  pub executions_7d : ℕ
  pub active_workers : ℕ
  pub avg_duration_ms : ℕ
  pub success_rate : F

-- `statsData?.n ?? '—'` and the like
abbrev pub metric : {F : Type 0} → Option (Stats F) → (Stats F → String) → String
metric none shown = "—"
metric (some s) shown = shown s

module _ {F : Type 0} (print : Printing) (percent : F → String) (cut : ℕ → String → String) where
  unfoldable pub metrics : Option (Stats F) → Shown
  unfolding format_duration
  metrics data_ =
      ("metric-label", "Executions (24h)")
      ∷ ("metric-value", metric data_ (λ s. print.whole (pos s.executions_24h)))
      ∷ ("metric-label", "Executions (7d)")
      ∷ ("metric-value", metric data_ (λ s. print.whole (pos s.executions_7d)))
      ∷ ("metric-label", "Active Workers")
      ∷ ("metric-value", metric data_ (λ s. print.whole (pos s.active_workers)))
      ∷ ("metric-label", "Avg Duration")
      ∷ ("metric-value", metric data_ (λ s. format_duration print s.avg_duration_ms))
      ∷ ("metric-label", "Success Rate")
      ∷ ("metric-value", metric data_ (λ s. percent s.success_rate))
      ∷ []

  abbrev pub cards : List Execution → Shown
  cards [] = []
  cards (x ∷ xs) = card print cut x false ++ cards xs

  -- `{#each … :else}`
  abbrev pub feed : List Execution → Shown
  feed [] = ("empty", "No executions yet. Submit code to see results.") ∷ []
  feed (x ∷ xs) = cards (x ∷ xs)

  unfoldable pub overview : Stores (Stats F) → Shown
  unfolding metrics
  overview s = metrics s.stats ++ ("section-title", "Live Feed") ∷ feed s.live_feed
