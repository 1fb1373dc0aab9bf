-- ===== src/Dashboard/Badge/Laws.antt =====
-- The tables of dashboard/src/components against the texts that the other parts use.
use codehive.Prelude.{sym, arith, ◌≡◌, is_some, String}
use codehive.Prelude.Dict
use codehive.Dashboard.Badge.{colors, bg_colors, lang_names}
use codehive.Dashboard.Page.{offered}
use codehive.Executor.Languages.{supported_iff_configured, lang_interpreter, supported, includes}

-- A text has a color exactly where it has a background.
pub colors_agree :
    (status : String) → is_some (Dict.get status colors) ≡ is_some (Dict.get status bg_colors)
unfolding Dict.get
colors_agree status = ground arith

-- The languages that the page offers are exactly those that the server accepts, those for which the
-- editor has a name, and those for which the executor has a configuration of its own.
pub offered_iff_supported :
    (language : String)
    → (includes offered language ≡ includes supported language)
      × (is_some (Dict.get language lang_names) ≡ includes supported language)
      × (is_some (Dict.get language lang_interpreter) ≡ includes supported language)
unfolding includes Dict.get
offered_iff_supported language =
    (ground arith, ground arith, sym (supported_iff_configured language))
