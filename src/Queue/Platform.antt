-- ===== src/Queue/Platform.antt =====
-- What the queue uses of code outside the repository: a Redis server (ioredis) and `JSON`. `S` is the
-- state of the server, and `V` the texts that it keeps for jobs. The laws are the documented behaviour of
-- the commands that the queue sends; commands are answered (a lost connection is not modelled, except for
-- PING).
use codehive.Prelude.{
  ℕ, ◌+◌, ◌-◌, ◌≡◌, ◌≢◌, String, Bool, Option, none, some, List, [], ◌∷◌, ◌++◌, false, str_eq,
  if◌then◌else◌, length, take, drop,
}
use codehive.Prelude.Int.{ℤ, pos, minus_one}
use codehive.Prelude.Exec.{Result, ok}
use codehive.Types.{Job}
use codehive.Errors.{Error}

pub record Platform (S V : Type 0) : Type 0 where
  -- string commands
  pub set : String → V → S → S
  pub get : String → S → Option V
  -- list commands; `items` is the whole list, its head the end that LPUSH adds to
  pub lpush : String → String → S → S
  pub rpop : String → S → Option String × S
  pub items : String → S → List String
  pub lrange : String → ℤ → ℤ → S → List String
  pub llen : String → S → ℕ
  -- whether PING is answered
  pub ping : S → Bool
  -- `JSON.stringify` and `JSON.parse` at a job
  pub stringify : Job → V
  pub parse : V → Result Error Job
  -- whether a text is empty, hence falsy
  pub blank : V → Bool
  -- SET and GET
  pub get-set :
      (j k : String) (v : V) (s : S) → get k (set j v s) ≡ (if str_eq j k then some v else get k s)
  -- the string commands at one key and the list commands at another do not meet
  pub items-set : (j k : String) (v : V) (s : S) → j ≢ k → items k (set j v s) ≡ items k s
  pub get-lpush : (j k v : String) (s : S) → j ≢ k → get k (lpush j v s) ≡ get k s
  pub get-rpop : (j k : String) (s : S) → j ≢ k → get k (rpop j s).1 ≡ get k s
  -- LPUSH adds at the head, RPOP takes the last item
  pub items-lpush : (k v : String) (s : S) → items k (lpush k v s) ≡ v ∷ items k s
  pub rpop-empty : (k : String) (s : S) → items k s ≡ [] → (rpop k s).0 ≡ none
  pub items-rpop_empty : (k : String) (s : S) → items k s ≡ [] → items k (rpop k s).1 ≡ []
  pub rpop-last :
      (k : String) (s : S) (l : List String) (v : String)
      → items k s ≡ l ++ v ∷ []
      → (rpop k s).0 ≡ some v
  pub items-rpop_last :
      (k : String) (s : S) (l : List String) (v : String)
      → items k s ≡ l ++ v ∷ []
      → items k (rpop k s).1 ≡ l
  -- LRANGE takes both ends in, LRANGE 0 -1 is the whole list
  pub lrange-pos :
      (k : String) (a b : ℕ) (s : S)
      → lrange k (pos a) (pos b) s ≡ take (b + 1 - a) (drop a (items k s))
  pub lrange-all : (k : String) (s : S) → lrange k (pos 0) minus_one s ≡ items k s
  pub llen-items : (k : String) (s : S) → llen k s ≡ length (items k s)
  -- what was printed reads back, and is not the empty text
  pub parse-stringify : (j : Job) → parse (stringify j) ≡ ok j
  pub stringify-ne : (j : Job) → blank (stringify j) ≡ false
