-- ===== src/Dashboard/Layout.antt =====
-- dashboard/src/App.svelte as a whole: the sidebar, the header, and the one view that is mounted. A view
-- keeps its own variables from when it is mounted until another one takes its place.
pub mod Laws
use codehive.Prelude.{
  String, ℕ, Option, none, some, Bool, true, false, List, [], ◌∷◌, ◌++◌, if◌then◌else◌,
}
use codehive.Dashboard.Stores.{Stores, Worker}
use codehive.Dashboard.Client.{Printing}
use codehive.Dashboard.Badge.{Shown, badge}
use codehive.Dashboard.Page.{Page, fresh_page}
use codehive.Dashboard.Settings.{Settings, initial_settings, settings_page}
use codehive.Dashboard.History.{executions_page, workers_page}
use codehive.Dashboard.App.{
  View, dashboard, executions, workers, settings, nav, title, header_badge, Stats, overview,
}

-- the view that is mounted, with its variables
pub data Mounted : Type 0 where
  dashboard_view : Mounted
  executions_view : Page → Mounted
  workers_view : Option Worker → Mounted
  settings_view : Settings → Mounted

abbrev pub view_of : Mounted → View
view_of dashboard_view = dashboard
view_of (executions_view p) = executions
view_of (workers_view w) = workers
view_of (settings_view s) = settings

-- a view as it starts
unfoldable pub mount : View → Mounted
mount dashboard = dashboard_view
mount executions = executions_view fresh_page
mount workers = workers_view none
mount settings = settings_view initial_settings

-- what the `onMount` of a view calls
pub data Load : Type 0 where
  load_stats load_executions load_workers : Load

abbrev pub on_mount : View → List Load
on_mount dashboard = load_stats ∷ []
on_mount executions = load_executions ∷ []
on_mount workers = load_workers ∷ []
on_mount settings = []

abbrev pub same_view : View → View → Bool
same_view dashboard dashboard = true
same_view executions executions = true
same_view workers workers = true
same_view settings settings = true
same_view _ _ = false

-- the application, with the loaders that it has called
pub record Application (D : Type 0) : Type 0 where
  pub stores : Stores D
  pub mounted : Mounted
  pub calls : List Load

-- `currentView.set(v)`: nothing happens where it is the view already
unfoldable pub go : {D : Type 0} → View → Application D → Application D
unfolding mount
go v a =
    if same_view v (view_of a.mounted)
    then a
    else record a { mounted = mount v; calls = a.calls ++ on_mount v }

-- the start: `initWS` and `loadWorkers` of the application itself, and the view of the store
unfoldable pub opened : {D : Type 0} → Stores D → Application D
unfolding mount
opened s = record {
  stores = s;
  mounted = mount dashboard;
  calls = on_mount dashboard ++ load_workers ∷ [];
}

abbrev pub item_class : View → View → String
item_class current v = if same_view current v then "nav-item active" else "nav-item"

abbrev pub nav_items : View → List (View × String × String) → Shown
nav_items current [] = []
nav_items current ((v, label, icon) ∷ items) =
    ("nav-icon", icon) ∷ (item_class current v, label) ∷ nav_items current items

unfoldable pub sidebar : View → Shown
sidebar current = ("brand-name", "CodeHive") ∷ nav_items current nav ++ ("version", "v1.0.0") ∷ []

-- what the language and its library print
pub record Browser (F : Type 0) : Type 0 where
  pub print : Printing
  pub number : ℕ → String
  pub percent : F → String
  pub cut : ℕ → String → String
  pub trim : String → String
  pub local_time : String → String

module _ {F : Type 0} (b : Browser F) where
  unfoldable pub content : Stores (Stats F) → Mounted → Shown
  unfolding executions_page workers_page settings_page overview
  content s dashboard_view = overview b.print b.percent b.cut s
  content s (executions_view p) = executions_page b.print b.cut b.trim p s.executions
  content s (workers_view w) = workers_page b.print b.local_time s.workers w
  content s (settings_view t) = settings_page b.number t

  unfoldable pub layout : Application (Stats F) → Shown
  unfolding sidebar content header_badge
  layout a =
      sidebar (view_of a.mounted)
      ++ ("page-title", title (view_of a.mounted))
        ∷ ("badge", (header_badge b.print a.stores).text)
        ∷ content a.stores a.mounted
