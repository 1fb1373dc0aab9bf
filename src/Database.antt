-- ===== src/Database.antt =====
-- api/src/services/db.ts: the pool of node-postgres, which the first call makes, and the calls on it. What
-- node-postgres does is a record of operations with what its documentation says of a pool that was ended.
pub mod Closed
mod Tests
use codehive.Prelude.{
  suc, ℕ, String, Option, none, some, List, [], ◌∷◌, ◌++◌, Bool, true, false, ◌≡◌, str_eq,
  if◌then◌else◌, ◌-◌,
}
use codehive.Prelude.Exec.{Exec, Result, ok, throw, ◌>>=◌, pure, try_catch}
use codehive.Errors.{Error}
use codehive.Server.Config.{Env, PoolOptions, get_pool}

-- A pool that `end` was called on takes no further query and no further client.
pub record Postgres (D Rows Client : Type 0) : Type 1 where
  pub query : PoolOptions → String → List String → D → Result Error Rows × D
  pub connect : PoolOptions → D → Result Error Client × D
  pub end_pool : PoolOptions → D → Result Error (Unit {0}) × D
  pub IsEnded : D → Type 0
  pub end_pool-IsEnded : (o : PoolOptions) (d : D) → IsEnded (end_pool o d).1
  pub query-IsEnded :
      (o : PoolOptions) (text : String) (values : List String) (d : D)
      → IsEnded d
      → IsEnded (query o text values d).1
  pub connect-IsEnded : (o : PoolOptions) (d : D) → IsEnded d → IsEnded (connect o d).1
  pub query_ended :
      (o : PoolOptions) (text : String) (values : List String) (d : D)
      → IsEnded d
      → (e : Error) × ((query o text values d).0 ≡ throw e)

-- the module's variable `pool`, how many pools were made, the pool itself, and what was printed: the cut
-- text of a query and its duration
pub record Database (D : Type 0) : Type 0 where
  pub pool : Option PoolOptions
  pub made : ℕ
  pub driver : D
  pub printed : List (String × ℕ)

abbrev pub is_none : {A : Type 0} → Option A → Bool
is_none none = true
is_none (some a) = false

-- `process.env.NODE_ENV === 'development'`
abbrev pub is_development : Option String → Bool
is_development none = false
is_development (some text) = str_eq text "development"

module _ {D Rows Client : Type 0} (P : Postgres D Rows Client) (number : String → Option ℕ)
    (cut : String → ℕ → String) (env : Env) where
  -- `getPool`
  unfoldable pub the_pool : Exec (Database D) Error PoolOptions
  unfolding get_pool
  the_pool db = (
    ok (get_pool number env db.pool),
    record db {
      pool = some (get_pool number env db.pool);
      made = if is_none db.pool then suc db.made else db.made;
    },
  )

  -- what a call of the pool answers
  abbrev pub on_driver : {A : Type 0} → (D → Result Error A × D) → Exec (Database D) Error A
  on_driver f db = let (r, d) = f db.driver in (r, record db { driver = d })

  abbrev pub print_query : String → ℕ → Rows → Exec (Database D) Error Rows
  print_query text duration rows db = (
    ok rows,
    if is_development (env "NODE_ENV")
        then record db { printed = db.printed ++ (cut text 80, duration) ∷ [] }
        else db,
  )

  -- `query`, with the clock before and after
  unfoldable pub query : ℕ → ℕ → String → List String → Exec (Database D) Error Rows
  unfolding the_pool
  query start finish text values = do
    p ← the_pool
    rows ← on_driver (P.query p text values)
    print_query text (finish - start) rows

  unfoldable pub get_client : Exec (Database D) Error Client
  unfolding the_pool
  get_client = do p ← the_pool; on_driver (P.connect p)

  unfoldable pub health_check : ℕ → ℕ → Exec (Database D) Error Bool
  unfolding query
  health_check start finish =
      try_catch (do rows ← query start finish "SELECT 1" []; pure true) (λ e. pure false)

  -- `if (pool) await pool.end()`
  abbrev pub end_of : Option PoolOptions → Exec (Database D) Error (Unit {0})
  end_of none = pure tt
  end_of (some p) = on_driver (P.end_pool p)

  unfoldable pub close_pool : Exec (Database D) Error (Unit {0})
  close_pool db = end_of db.pool db

-- a call of the module
pub data Call : Type 0 where
  queries : ℕ → ℕ → String → List String → Call
  connects : Call
  checks : ℕ → ℕ → Call
  closes : Call

module _ {D Rows Client : Type 0} (P : Postgres D Rows Client) (number : String → Option ℕ)
    (cut : String → ℕ → String) (env : Env) where
  -- the state behind a call
  unfoldable pub served : Call → Database D → Database D
  unfolding query get_client health_check close_pool
  served (queries start finish text values) db =
      (query P number cut env start finish text values db).1
  served connects db = (get_client P number cut env db).1
  served (checks start finish) db = (health_check P number cut env start finish db).1
  served closes db = (close_pool P number cut env db).1

  unfoldable pub serve : List Call → Database D → Database D
  unfolding served
  serve [] db = db
  serve (c ∷ cs) db = serve cs (served c db)

-- the module at its start
abbrev pub unused : {D : Type 0} → D → Database D
unused d = record { pool = none; made = 0; driver = d; printed = [] }
