-- ===== src/Queue/World.antt =====
-- The state of the server process that queue.ts reads and writes: the objects on the JavaScript heap,
-- the memory queue, the module's variables, and the state `S` of the Redis server. A `Job` object is
-- named by its place on the heap, so that two holders of one object see each other's writes.
use codehive.Prelude.{
  ◌≡◌, ◌≢◌, refl, ap, ℕ, zero, suc, String, Bool, Option, List, [], ◌∷◌, ◌++◌, length, get_elem?,
}
use mathlib.Core.Option
use codehive.Prelude.Dict.{Dict}
use codehive.Prelude.Exec.{Exec, ok}
use codehive.Types.{Job}
use codehive.Errors.{Error}

abbrev pub Ref : Type 0
Ref = ℕ

pub record MemoryQueue : Type 0 where
  pub jobs : Dict Ref
  pub order : List String

pub record World (S : Type 0) : Type 0 where
  pub heap : List Job
  pub mem : MemoryQueue
  -- `redis` is not null
  pub redis : Bool
  pub redis_attempted : Bool
  -- `process.env.REDIS_HOST`
  pub redis_host : Option String
  -- the state of the Redis server
  pub server : S

abbrev pub Action : Type 0 → Type 0 → Type 0
Action S A = Exec (World S) Error A

-- a write to the object at a place; nothing at a place that is not there
abbrev pub modify_at {ℓ} : {A : Type ℓ} → ℕ → (A → A) → List A → List A
modify_at i f [] = []
modify_at zero f (x ∷ xs) = f x ∷ xs
modify_at (suc i) f (x ∷ xs) = x ∷ modify_at i f xs

module _ {S : Type 0} where
  -- an object literal
  unfoldable pub new_job : Job → Action S Ref
  new_job job w = (ok (length w.heap), record w { heap = w.heap ++ job ∷ [] })

  abbrev pub load : World S → Ref → Option Job
  load w r = get_elem? w.heap r

  unfoldable pub modify : Ref → (Job → Job) → Action S (Unit {0})
  modify r f w = (ok tt, record w { heap = modify_at r f w.heap })

module _ {ℓ} {A : Type ℓ} where
  pub length-modify_at : (i : ℕ) (f : A → A) (xs : List A) → length (modify_at i f xs) ≡ length xs
  length-modify_at i f [] = refl
  length-modify_at zero f (x ∷ xs) = refl
  length-modify_at (suc i) f (x ∷ xs) = ap suc (length-modify_at i f xs)

  pub get_elem?-modify_at_self :
      (i : ℕ) (f : A → A) (xs : List A)
      → get_elem? (modify_at i f xs) i ≡ Option.map f (get_elem? xs i)
  get_elem?-modify_at_self i f [] = refl
  get_elem?-modify_at_self zero f (x ∷ xs) = refl
  get_elem?-modify_at_self (suc i) f (x ∷ xs) = get_elem?-modify_at_self i f xs

  pub get_elem?-modify_at_ne :
      (i j : ℕ) (f : A → A) (xs : List A) → i ≢ j → get_elem? (modify_at i f xs) j ≡ get_elem? xs j
  get_elem?-modify_at_ne i j f [] h = refl
  get_elem?-modify_at_ne zero zero f (x ∷ xs) h = absurd (h refl)
  get_elem?-modify_at_ne zero (suc j) f (x ∷ xs) h = refl
  get_elem?-modify_at_ne (suc i) zero f (x ∷ xs) h = refl
  get_elem?-modify_at_ne (suc i) (suc j) f (x ∷ xs) h =
      get_elem?-modify_at_ne i j f xs (λ e. h (ap suc e))
