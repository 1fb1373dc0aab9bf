-- ===== src/Executor/Languages.antt =====
-- The table `LANG_INTERPRETER` of api/src/services/executor.ts, and the list `SUPPORTED` of
-- api/src/routes/execute.ts that guards it.
use codehive.Prelude.{
  arith, true, is_some, false, ◌++◌, str_eq, ◌≡◌, Bool, [], if◌then◌else◌, get_or, some, Option,
  List, ◌∷◌, none, String,
}
use Prim.Native.String.{◌++◌ as str_append}
use codehive.Prelude.Dict.{Dict}
use codehive.Prelude.Dict

pub record LangCfg : Type 0 where
  pub cmd : String
  pub ext : String
  pub args : Option (List String)

abbrev pub python_cfg : LangCfg
python_cfg = record { cmd = "python3"; ext = ".py"; args = none }

abbrev pub lang_interpreter : Dict LangCfg
lang_interpreter =
    ("python", python_cfg)
    ∷ ("javascript", record { cmd = "node"; ext = ".js"; args = none })
    ∷ ("typescript", record { cmd = "npx"; ext = ".ts"; args = some ("tsx" ∷ []) })
    ∷ ("go", record { cmd = "go"; ext = ".go"; args = some ("run" ∷ []) })
    ∷ ("rust", record { cmd = "rustc"; ext = ".rs"; args = none })
    ∷ ("java", record { cmd = "java"; ext = ".java"; args = none })
    ∷ ("cpp", record { cmd = "g++"; ext = ".cpp"; args = some ("-o" ∷ "/tmp/a.out" ∷ []) })
    ∷ []

-- `LANG_INTERPRETER[language] ?? LANG_INTERPRETER['python']`
unfoldable pub config_of : String → LangCfg
config_of language = get_or (Dict.get language lang_interpreter) python_cfg

-- the name of the file that holds the code
unfoldable pub file_name : String → String
unfolding config_of
file_name language =
    if str_eq language "java" then "Main.java" else str_append "code" (config_of language).ext

-- the arguments of the spawned command
unfoldable pub command_args : LangCfg → String → List String
command_args cfg file = get_or cfg.args [] ++ file ∷ []

abbrev pub supported : List String
supported = "python" ∷ "javascript" ∷ "typescript" ∷ "java" ∷ "cpp" ∷ "rust" ∷ "go" ∷ []

-- `SUPPORTED.includes(language)`
unfoldable pub includes : List String → String → Bool
includes [] x = false
includes (y ∷ ys) x = if str_eq y x then true else includes ys x

-- The route accepts a language exactly when the table has an entry for it, so that an accepted
-- language never falls back to Python's entry.
pub supported_iff_configured :
    (language : String) → includes supported language ≡ is_some (Dict.get language lang_interpreter)
unfolding includes Dict.get
supported_iff_configured language = ground arith
