-- ===== src/Auth.antt =====
-- api/src/plugins/auth.ts: the hook that asks for the API key. `x-api-key` is one text where it is sent;
-- the environment's key is read once, when the hook is registered.
pub mod Tests
use codehive.Queue.Memory.{truthy}
use codehive.Prelude.{
  String, Option, none, some, Bool, true, false, str_eq, List, [], ◌∷◌, if◌then◌else◌, contains,
  ◌||◌, ◌≡◌, ◌↔◌, ◌⊎◌, arith, eq_iff,
}
use text.Mathlib.Text.{starts_with}

pub data Verdict : Type 0 where
  passed unauthorized : Verdict

abbrev pub public_paths : List String
public_paths = "/api/health" ∷ "/api/ws" ∷ []

-- `publicPaths.some(p => req.url.startsWith(p))`, or the root
unfoldable pub is_public : String → Bool
is_public url = contains (λ p. starts_with url p) public_paths || str_eq url "/"

-- `!key || key !== apiKey`
abbrev pub checked : String → Option String → Verdict
checked api_key none = unauthorized
checked api_key (some key) = if str_eq key api_key then passed else unauthorized

-- the hook
unfoldable pub on_request : String → String → Option String → Verdict
unfolding is_public
on_request api_key url key = if is_public url then passed else checked api_key (truthy key)

abbrev guarded_by : Option String → String → Option String → Verdict
guarded_by none url key = passed
guarded_by (some api_key) url key = on_request api_key url key

-- A request under `registerAuth`, whose hook is added only where a key is set.
unfoldable pub authorize : Option String → String → Option String → Verdict
unfolding on_request
authorize env url key = guarded_by (truthy env) url key

-- Where an API key is set that is not empty, a request passes exactly where its URL is public or it sends
-- that key.
pub authorize-passed_iff :
    (api_key url : String) (key : Option String)
    → str_eq api_key "" ≡ false
    → (authorize (some api_key) url key ≡ passed) ↔ ((is_public url ≡ true) ⊎ (key ≡ some api_key))
unfolding authorize
authorize-passed_iff api_key url none n = simp n (ground arith)
authorize-passed_iff api_key url (some k) n = simp n (ground (arith, eq_iff k api_key, eq_iff k ""))

-- Where no key is set, or an empty one, every request passes.
pub authorize-disabled :
    (env key : Option String) (url : String) → truthy env ≡ none → authorize env url key ≡ passed
unfolding authorize
authorize-disabled env key url e = rw e
