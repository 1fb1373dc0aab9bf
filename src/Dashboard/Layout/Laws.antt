-- ===== src/Dashboard/Layout/Laws.antt =====
-- What the frame of dashboard/src/App.svelte shows.
use codehive.Prelude.{
  inr, inl, Bool-cases, arith, true, String, List, [], ◌∷◌, ◌≡◌, refl, if◌then◌else◌, str_eq, false,
}
use codehive.Dashboard.Badge.{Shown}
use codehive.Dashboard.App.{View, dashboard, executions, workers, settings, title}
use codehive.Dashboard.Layout.{Application, sidebar, go, mount, view_of, same_view}

-- the texts that are shown under a class
abbrev pub texts_of : String → Shown → List String
texts_of c [] = []
texts_of c ((d, t) ∷ shown) = let rest = texts_of c shown in if str_eq d c then t ∷ rest else rest

-- The one item of the sidebar that is marked as active has the text of the header's title.
pub sidebar-active : (v : View) → texts_of "nav-item active" (sidebar v) ≡ title v ∷ []
unfolding sidebar
sidebar-active dashboard = refl
sidebar-active executions = refl
sidebar-active workers = refl
sidebar-active settings = refl

same_view-eq : (u v : View) → same_view u v ≡ true → v ≡ u
same_view-eq u v e = ground arith

same_view_comm : (u v : View) → same_view u v ≡ same_view v u
same_view_comm u v = ground arith

view_of-mount : (v : View) → view_of (mount v) ≡ v
unfolding mount
view_of-mount dashboard = refl
view_of-mount executions = refl
view_of-mount workers = refl
view_of-mount settings = refl

-- The title of the header is that of the view that was chosen last.
pub view_of-go : {D : Type 0} (v : View) (a : Application D) → view_of (go v a).mounted ≡ v
unfolding go
view_of-go v a = elim (Bool-cases (same_view v (view_of a.mounted))) [
  | inl same ↦ simp same (same_view-eq v (view_of a.mounted) same)
  | inr other ↦ simp other (view_of-mount v)
]

-- Who leaves a view and comes back finds it as it started: what was typed or selected there is lost.
pub go-back :
    {D : Type 0} (v : View) (a : Application D)
    → same_view v (view_of a.mounted) ≡ false
    → (go (view_of a.mounted) (go v a)).mounted ≡ mount (view_of a.mounted)
unfolding go
go-back v a other = simp (other, view_of-mount v, same_view_comm (view_of a.mounted) v)
