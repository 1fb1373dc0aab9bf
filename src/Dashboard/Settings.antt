-- ===== src/Dashboard/Settings.antt =====
-- dashboard/src/routes/Settings.svelte: the settings are local to the view and are stored nowhere. Each
-- click on the button starts a timer of two seconds.
use codehive.Dashboard.Badge.{Shown}
use codehive.Prelude.{[], ◌∷◌, refl, if◌then◌else◌, Bool, ◌≡◌, false, true, String, ℕ, suc, ◌-◌}

pub record Settings : Type 0 where
  pub theme : String
  pub ws_reconnect : Bool
  pub polling_interval : ℕ
  pub saved : Bool
  -- the timers that have not fired
  pub timers : ℕ

abbrev pub initial_settings : Settings
initial_settings = record {
  theme = "dark";
  ws_reconnect = true;
  polling_interval = 10;
  saved = false;
  timers = 0;
}

unfoldable pub save : Settings → Settings
save s = record s { saved = true; timers = suc s.timers }

-- a timer fires
unfoldable pub expire : Settings → Settings
expire s = record s { saved = false; timers = s.timers - 1 }

unfoldable pub save_label : Settings → String
save_label s = if s.saved then "Saved!" else "Save Settings"

-- the inputs, which are bound to the settings
unfoldable pub bind_theme : String → Settings → Settings
bind_theme t s = record s { theme = t }

unfoldable pub bind_reconnect : Bool → Settings → Settings
bind_reconnect b s = record s { ws_reconnect = b }

unfoldable pub bind_interval : ℕ → Settings → Settings
bind_interval n s = record s { polling_interval = n }

-- the markup; a toggle is shown by whether it is checked
abbrev pub toggle : Bool → String
toggle b = if b then "toggle checked" else "toggle"

unfoldable pub settings_page : (ℕ → String) → Settings → Shown
unfolding save_label
settings_page print s =
    ("page-title", "Settings")
    ∷ ("section-title", "Appearance")
    ∷ ("field-label", "Theme")
    ∷ ("option", "Dark")
    ∷ ("option", "Light")
    ∷ ("option", "System")
    ∷ ("section-title", "Connection")
    ∷ ("field-label", "WebSocket Auto-Reconnect")
    ∷ (toggle s.ws_reconnect, "")
    ∷ ("field-label", "Polling Interval (seconds)")
    ∷ ("input", print s.polling_interval)
    ∷ ("section-title", "API")
    ∷ ("field-label", "API Endpoint")
    ∷ ("endpoint", "/api")
    ∷ ("field-label", "WebSocket Endpoint")
    ∷ ("endpoint", "/ws")
    ∷ ("btn primary", save_label s)
    ∷ []

-- the first of two timers takes the message away while the second still runs
early_expire :
    (save_label (expire (save (save initial_settings))) ≡ "Save Settings")
    × ((expire (save (save initial_settings))).timers ≡ 1)
unfolding save expire save_label
early_expire = (refl, refl)
