-- ===== src/Routes/Root.antt =====
-- api/src/routes/root.ts: the page at `/`. Its markup is the list of the classes and texts that it shows;
-- a link is the path that it leads to, and its text.
use codehive.Prelude.{false, str_eq, String, List, [], ◌∷◌, ◌++◌, some, none, ◌≡◌, refl}
use codehive.Auth.{authorize, passed, unauthorized}
use Prim.Native.String.{◌++◌ as str_append}

abbrev pub pkg : String × String
pkg = ("codehive-api", "1.0.0")

abbrev pub links : List (String × String)
links =
    ("/api/health", "Health Check")
    ∷ ("/api/workers", "Workers")
    ∷ ("/api/executions", "Executions")
    ∷ ("https://github.com/codehive/codehive", "GitHub")
    ∷ []

-- `GET /`
unfoldable pub root_page : List (String × String)
root_page =
    ("h1", "CodeHive")
      ∷ ("sub", str_append pkg.0 (str_append " v" pkg.1))
      ∷ ("status", "All systems operational")
      ∷ links
    ++ ("badge", "Multi-language code execution orchestrator") ∷ []

-- With an API key, whoever follows the links of the page without sending it is let through to the health
-- route only, of the three that lead to the server.
pub links-authorize :
    (api_key : String)
    → str_eq api_key "" ≡ false
    → (authorize (some api_key) "/" none ≡ passed)
      × (authorize (some api_key) "/api/health" none ≡ passed)
      × (authorize (some api_key) "/api/workers" none ≡ unauthorized)
      × (authorize (some api_key) "/api/executions" none ≡ unauthorized)
unfolding authorize
links-authorize api_key n = simp n (refl, refl, refl, refl)
