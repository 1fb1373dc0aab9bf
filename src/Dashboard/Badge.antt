-- ===== src/Dashboard/Badge.antt =====
-- dashboard/src/components/StatusBadge.svelte and CodeEditor.svelte. A view is the list of the texts that
-- it displays, in order, each with the class of its element; how they are nested is left out.
pub mod Laws
use codehive.Prelude.{none, str_eq, if◌then◌else◌, some, [], get_or, Option, ◌∷◌, String, List}
use codehive.Prelude.Dict

abbrev pub Shown : Type 0
Shown = List (String × String)

abbrev pub colors : Dict.Dict String
colors =
    ("idle", "var(--green)")
    ∷ ("online", "var(--green)")
    ∷ ("offline", "var(--text-muted)")
    ∷ ("busy", "var(--yellow)")
    ∷ ("completed", "var(--green)")
    ∷ ("running", "var(--blue)")
    ∷ ("queued", "var(--yellow)")
    ∷ ("pending", "var(--yellow)")
    ∷ ("failed", "var(--red)")
    ∷ ("timeout", "var(--orange)")
    ∷ []

abbrev pub bg_colors : Dict.Dict String
bg_colors =
    ("idle", "var(--green-bg)")
    ∷ ("online", "var(--green-bg)")
    ∷ ("offline", "transparent")
    ∷ ("busy", "var(--yellow-bg)")
    ∷ ("completed", "var(--green-bg)")
    ∷ ("running", "var(--blue-bg)")
    ∷ ("queued", "var(--yellow-bg)")
    ∷ ("pending", "var(--yellow-bg)")
    ∷ ("failed", "var(--red-bg)")
    ∷ ("timeout", "var(--orange-bg)")
    ∷ []

-- the badge: its two colors and its text
pub record Badge : Type 0 where
  pub color : String
  pub background : String
  pub text : String

-- `label || status`
abbrev pub badge_text : String → Option String → String
badge_text status none = status
badge_text status (some label) = if str_eq label "" then status else label

unfoldable pub badge : String → Option String → Badge
badge status label = record {
  color = get_or (Dict.get status colors) "var(--text-muted)";
  background = get_or (Dict.get status bg_colors) "transparent";
  text = badge_text status label;
}

-- `langNames` of CodeEditor.svelte
abbrev pub lang_names : Dict.Dict String
lang_names =
    ("python", "Python")
    ∷ ("javascript", "JavaScript")
    ∷ ("typescript", "TypeScript")
    ∷ ("java", "Java")
    ∷ ("cpp", "C++")
    ∷ ("rust", "Rust")
    ∷ ("go", "Go")
    ∷ []

unfoldable pub editor_label : String → String
editor_label language = get_or (Dict.get language lang_names) language

-- the editor: the label of its toolbar, and the text that is edited
unfoldable pub code_editor : String → String → Shown
unfolding editor_label
code_editor language value = ("lang-label", editor_label language) ∷ ("editor", value) ∷ []
