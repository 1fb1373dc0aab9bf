-- ===== src/Server/Config.antt =====
-- The settings that api/src reads from the environment: api/src/index.ts, api/src/services/db.ts,
-- api/src/services/queue.ts, and the options of api/src/plugins. `Number` of a text is an argument,
-- `none` where it is NaN; `split` is the language's.
use codehive.Prelude.{
  arith, ◌*◌, min, not, contains, str_eq, ◌≤◌, ℕ, String, Option, none, some, List, [], ◌∷◌, Bool,
  true, get_or,
}
use Prim.Native.String.{◌++◌ as str_append}

-- `process.env`
abbrev pub Env : Type 0
Env = String → Option String

-- `Number(process.env[name] ?? n)`
abbrev pub number_env : (String → Option ℕ) → Option String → ℕ → Option ℕ
number_env number none n = some n
number_env number (some text) n = number text

-- `PORT` and `HOST`
unfoldable pub listen_options : (String → Option ℕ) → Env → Option ℕ × String
listen_options number env = (number_env number (env "PORT") 3001, get_or (env "HOST") "0.0.0.0")

pub record PoolOptions : Type 0 where
  pub host : String
  pub port : Option ℕ
  pub database : String
  pub user : String
  pub password : String
  pub max : Option ℕ
  pub idle_timeout_millis : ℕ
  pub connection_timeout_millis : ℕ

-- the options of `new pg.Pool`
unfoldable pub pool_options : (String → Option ℕ) → Env → PoolOptions
pool_options number env = record {
  host = get_or (env "PGHOST") "localhost";
  port = number_env number (env "PGPORT") 5432;
  database = get_or (env "PGDATABASE") "codehive";
  user = get_or (env "PGUSER") "codehive";
  password = get_or (env "PGPASSWORD") "codehive";
  max = number_env number (env "PGPOOL_MAX") 10;
  idle_timeout_millis = 30000;
  connection_timeout_millis = 3000;
}

-- `getPool`: the pool that was made first is kept
unfoldable pub get_pool : (String → Option ℕ) → Env → Option PoolOptions → PoolOptions
unfolding pool_options
get_pool number env pool = get_or pool (pool_options number env)

-- the options of `new Redis`, with its `retryStrategy`: the delay before a connection is tried again
unfoldable pub retry_delay : ℕ → ℕ
retry_delay times = min (times * 100) 3000

pub record RedisOptions : Type 0 where
  pub host : String
  pub port : Option ℕ
  pub password : Option String
  pub retry_strategy : ℕ → ℕ
  pub max_retries_per_request : ℕ
  pub lazy_connect : Bool

unfoldable pub redis_options : (String → Option ℕ) → Env → String → RedisOptions
unfolding retry_delay
redis_options number env host = record {
  host = host;
  port = number_env number (env "REDIS_PORT") 6379;
  password = env "REDIS_PASSWORD";
  retry_strategy = retry_delay;
  max_retries_per_request = 1;
  lazy_connect = true;
}

-- the codes of errors that the handlers of the client and of the pool do not print
abbrev pub unprinted_redis : List String
unprinted_redis = "ECONNREFUSED" ∷ "ENOTFOUND" ∷ []

abbrev pub unprinted_pool : List String
unprinted_pool = "ECONNREFUSED" ∷ []

-- whether an error with a code, or with none, is printed
unfoldable pub is_printed : List String → Option String → Bool
is_printed codes none = true
is_printed codes (some code) = not (contains (λ c. str_eq code c) codes)

-- The delay grows with the number of attempts and is at most three seconds.
pub retry_delay-le : (m n : ℕ) → m ≤ n → (retry_delay m ≤ retry_delay n) × (retry_delay n ≤ 3000)
unfolding retry_delay
retry_delay-le m n h = (omega (arith, h), omega arith)

pub record CorsOptions : Type 0 where
  pub origin : List String
  pub methods : List String
  pub credentials : Bool

abbrev pub origin_of : (String → List String) → Option String → List String
origin_of split none = "*" ∷ []
origin_of split (some text) = split text

-- `registerCors`
unfoldable pub cors_options : (String → List String) → Env → CorsOptions
cors_options split env = record {
  origin = origin_of split (env "CORS_ORIGIN");
  methods = "GET" ∷ "POST" ∷ "PUT" ∷ "DELETE" ∷ "OPTIONS" ∷ [];
  credentials = true;
}

-- `registerWebSocket`
abbrev pub max_payload : ℕ
max_payload = 1048576

-- `registerRateLimit`: its bound, and the body of a refusal
abbrev pub rate_limit_max : ℕ
rate_limit_max = 10

abbrev pub rate_limit_window : String
rate_limit_window = "1 minute"

pub record LimitBody : Type 0 where
  pub status_code : ℕ
  pub error : String
  pub message : String

unfoldable pub limit_body : (ℕ → String) → ℕ → String → LimitBody
limit_body print max_ after = record {
  status_code = 429;
  error = "Too Many Requests";
  message =
      str_append "Rate limit exceeded. Max "
        (str_append (print max_) (str_append " requests per " (str_append after ".")));
}
