-- ===== src/Database/Tests.antt =====
-- The pool at concrete inputs.
use codehive.Prelude.{
  arith, str_eq, Option, List, if◌then◌else◌, String, ◌≡◌, ℕ, refl, Bool, true, false, none, some,
  ◌∷◌, [],
}
use codehive.Prelude.Exec.{ok, throw, Result}
use codehive.Errors.{Error, plain}
use codehive.Server.Config.{Env}
use codehive.Database.{
  Postgres, Call, queries, connects, checks, closes, served, serve, unused, query, health_check,
}
use codehive.Database.Closed.{closed_for_good}

-- a pool that answers every query with a number until it is ended
abbrev rows_of : Bool → Result Error ℕ
rows_of true = throw (plain "Cannot use a pool after calling end on the pool")
rows_of false = ok 1

abbrev postgres : Postgres Bool ℕ ℕ
postgres = record {
  query = λ o text values ended. (rows_of ended, ended);
  connect = λ o ended. (rows_of ended, ended);
  end_pool = λ o ended. (ok tt, true);
  IsEnded = λ ended. ended ≡ true;
  end_pool-IsEnded = λ o d. refl;
  query-IsEnded = λ o text values d h. h;
  connect-IsEnded = λ o d h. h;
  query_ended =
      λ o text values d h. (plain "Cannot use a pool after calling end on the pool", rw h refl);
}

abbrev no_number : String → Option ℕ
no_number text = none

abbrev whole_text : String → ℕ → String
whole_text text n = text

abbrev development : Env
development name = if str_eq name "NODE_ENV" then some "development" else none

abbrev used : List Call
used = checks 0 3 ∷ queries 5 9 "SELECT 2" [] ∷ connects ∷ []

abbrev more : List Call
more = closes ∷ checks 10 11 ∷ []

one_made : (serve postgres no_number whole_text development used (unused false)).made ≡ 1
unfolding serve
one_made = refl

two_printed :
    (serve postgres no_number whole_text development used (unused false)).printed
    ≡ ("SELECT 1", 3) ∷ ("SELECT 2", 4) ∷ []
unfolding serve
two_printed = refl

closed_for_good_example :
    let db = serve postgres no_number whole_text development more (
      served postgres no_number whole_text development closes
        (serve postgres no_number whole_text development used (unused false))) in
    (db.made ≡ 1)
    × ((e : Error) × ((query postgres no_number whole_text development 12 13 "SELECT 3" [] db).0
          ≡ throw e))
    × ((health_check postgres no_number whole_text development 12 13 db).0 ≡ ok false)
closed_for_good_example =
    closed_for_good postgres no_number whole_text development false used more
      (λ none_made. omega (arith, one_made, none_made)) 12 13 "SELECT 3" []
