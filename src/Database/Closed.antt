-- ===== src/Database/Closed.antt =====
-- The one pool of the module, and what it answers when it was closed.
use codehive.Errors.{Error}
use mathlib.Core.Path.{subst}
use codehive.Routes.Health.{answered}
use codehive.Prelude.{
  false, ◌∷◌, ap, sym, inr, ◌∙◌, inl, arith, suc, if◌then◌else◌, ◌⊎◌, [], List, some, none, Option,
  String, ℕ, ◌≡◌, ◌≢◌, refl,
}
use codehive.Prelude.Exec.{ok, throw}
use codehive.Server.Config.{PoolOptions, get_pool, pool_options, Env}
use codehive.Database.{
  end_of, Postgres, Database, Call, queries, connects, checks, closes, served, serve, unused, query,
  get_client, health_check, close_pool, is_none,
}

module _ {D Rows Client : Type 0} (P : Postgres D Rows Client) (number : String → Option ℕ)
    (cut : String → ℕ → String) (env : Env) where
  -- no pool was made, or one, with the options of the environment
  record OnePool (db : Database D) : Type 0 where
    pool : (db.made ≡ 0 × db.pool ≡ none) ⊎ (db.made ≡ 1 × db.pool ≡ some (pool_options number env))

  -- the pool was made, and ended
  record Ended (db : Database D) : Type 0 where
    pool : db.pool ≡ some (pool_options number env)
    made : db.made ≡ 1
    ended : P.IsEnded db.driver

  -- a call that makes the pool where there is none, and leaves the driver in a state
  abbrev Uses : Database D → D → Database D → Type 0
  Uses db d after =
      (after.pool ≡ some (get_pool number env db.pool))
      × (after.made ≡ (if is_none db.pool then suc db.made else db.made))
      × (after.driver ≡ d)

  query-Uses :
      (start finish : ℕ) (text : String) (values : List String) (db : Database D)
      → Uses db
          (P.query (get_pool number env db.pool) text values db.driver).1
          (query P number cut env start finish text values db).1
  unfolding query
  query-Uses start finish text values db = ground arith

  get_client-Uses :
      (db : Database D)
      → Uses db
          (P.connect (get_pool number env db.pool) db.driver).1
          (get_client P number cut env db).1
  unfolding get_client
  get_client-Uses db = (refl, refl, refl)

  -- `healthCheck` answers whether its query was answered
  pub health_check_lem :
      (start finish : ℕ) (db : Database D)
      → health_check P number cut env start finish db ≡ (
        ok (answered (query P number cut env start finish "SELECT 1" [] db).0),
        (query P number cut env start finish "SELECT 1" [] db).1,
      )
  unfolding health_check
  health_check_lem start finish db = ground arith

  Uses-OnePool : (db after : Database D) (d : D) → Uses db d after → OnePool db → OnePool after
  unfolding get_pool
  Uses-OnePool db after d (p, m, e) one = elim one.pool [
    | inl (m0, p0) ↦ record { pool = inr (m ∙ rw p0 (ap suc m0), p ∙ rw p0 refl) }
    | inr (m1, p1) ↦ record { pool = inr (m ∙ rw p1 m1, p ∙ rw p1 refl) }
  ]

  Uses-Ended :
      (db after : Database D) (d : D) → Uses db d after → P.IsEnded d → Ended db → Ended after
  unfolding get_pool
  Uses-Ended db after d (p, m, e) i h = record {
    pool = p ∙ rw h.pool refl;
    made = m ∙ rw h.pool h.made;
    ended = subst P.IsEnded (sym e) i;
  }

  end_of-kept :
      (o : Option PoolOptions) (db : Database D)
      → ((end_of P number cut env o db).1.pool ≡ db.pool)
        × ((end_of P number cut env o db).1.made ≡ db.made)
  end_of-kept none db = (refl, refl)
  end_of-kept (some p) db = (refl, refl)

  served-OnePool :
      (c : Call) (db : Database D) → OnePool db → OnePool (served P number cut env c db)
  unfolding served close_pool
  served-OnePool (queries start finish text values) db one =
      Uses-OnePool db _ _ (query-Uses start finish text values db) one
  served-OnePool connects db one = Uses-OnePool db _ _ (get_client-Uses db) one
  served-OnePool (checks start finish) db one =
      Uses-OnePool db _ _
        (subst (Uses db _) (sym (ap (λ x. x.1) (health_check_lem start finish db)))
          (query-Uses start finish "SELECT 1" [] db))
        one
  served-OnePool closes db one =
      let (p, m) = end_of-kept db.pool db in
      elim one.pool [
        | inl (m0, p0) ↦ record { pool = inl (m ∙ m0, p ∙ p0) }
        | inr (m1, p1) ↦ record { pool = inr (m ∙ m1, p ∙ p1) }
      ]

  serve-OnePool :
      (cs : List Call) (db : Database D) → OnePool db → OnePool (serve P number cut env cs db)
  unfolding serve
  serve-OnePool [] db one = one
  serve-OnePool (c ∷ cs) db one = serve-OnePool cs _ (served-OnePool c db one)

  served-Ended : (c : Call) (db : Database D) → Ended db → Ended (served P number cut env c db)
  unfolding served close_pool
  served-Ended (queries start finish text values) db h =
      Uses-Ended db _ _ (query-Uses start finish text values db)
        (P.query-IsEnded _ text values db.driver h.ended) h
  served-Ended connects db h =
      Uses-Ended db _ _ (get_client-Uses db) (P.connect-IsEnded _ db.driver h.ended) h
  served-Ended (checks start finish) db h =
      Uses-Ended db _ _
        (subst (Uses db _) (sym (ap (λ x. x.1) (health_check_lem start finish db)))
          (query-Uses start finish "SELECT 1" [] db))
        (P.query-IsEnded _ "SELECT 1" [] db.driver h.ended) h
  served-Ended closes db h = record {
    pool = (end_of-kept db.pool db).0 ∙ h.pool;
    made = (end_of-kept db.pool db).1 ∙ h.made;
    ended = rw h.pool (P.end_pool-IsEnded _ db.driver);
  }

  serve-Ended : (cs : List Call) (db : Database D) → Ended db → Ended (serve P number cut env cs db)
  unfolding serve
  serve-Ended [] db h = h
  serve-Ended (c ∷ cs) db h = serve-Ended cs _ (served-Ended c db h)

  -- `closePool` ends the pool that was made
  closes-Ended :
      (db : Database D) → OnePool db → db.made ≢ 0 → Ended (served P number cut env closes db)
  unfolding served close_pool
  closes-Ended db one once = elim one.pool [
    | inl (m0, p0) ↦ absurd (once m0)
    | inr (m1, p1) ↦ record {
      pool = (end_of-kept db.pool db).0 ∙ p1;
      made = (end_of-kept db.pool db).1 ∙ m1;
      ended = rw p1 (P.end_pool-IsEnded _ db.driver);
    }
  ]

  Ended-throws :
      (start finish : ℕ) (text : String) (values : List String) (db : Database D)
      → Ended db
      → (e : Error) × ((query P number cut env start finish text values db).0 ≡ throw e)
  unfolding query
  Ended-throws start finish text values db h =
      let (e, rejected) =
        P.query_ended (get_pool number env db.pool) text values db.driver h.ended in
      (e, ground (arith, rejected))

  -- The module starts, whatever is called makes a pool, `closePool` is called, and then whatever else. No
  -- more than that one pool was ever made, every query is rejected, and `healthCheck` answers false.
  pub closed_for_good :
      (d : D) (before after : List Call)
      → (serve P number cut env before (unused d)).made ≢ 0
      → (start finish : ℕ) (text : String) (values : List String)
      → let db =
          serve P number cut env after
            (served P number cut env closes (serve P number cut env before (unused d))) in
        (db.made ≡ 1)
        × ((e : Error) × ((query P number cut env start finish text values db).0 ≡ throw e))
        × ((health_check P number cut env start finish db).0 ≡ ok false)
  closed_for_good d before after once start finish text values =
      let one = serve-OnePool before (unused d) (record { pool = inl (refl, refl) }) in
      let h = serve-Ended after _ (closes-Ended _ one once) in
      let (e, thrown) = Ended-throws start finish "SELECT 1" [] _ h in
      (
        h.made,
        Ended-throws start finish text values _ h,
        ap (λ x. x.0) (health_check_lem start finish _) ∙ rw thrown refl,
      )
