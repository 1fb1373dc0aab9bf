-- ===== src/Observer/Deliveries.antt =====
-- What one event brings to each client of api/src/services/ws-observer.ts.
use codehive.Prelude.{
  inr, eq_iff, inl, arith, Bool-cases, str_eq, ◌∷◌, if◌then◌else◌, true, [], some, none, ◌++◌, Bool,
  List, String, ◌≡◌, refl,
}
use codehive.Prelude.Dict
use codehive.Observer.{deliveries, wants, message_of, Message, WsClient, ExecutionEvent}

-- the messages of one socket, in order
unfoldable pub received : String → List (String × Message) → List Message
received id [] = []
received id ((k, m) ∷ log) = let rest = received id log in if str_eq k id then m ∷ rest else rest

-- every key of a map stands in it once
abbrev pub Distinct : {V : Type 0} → Dict.Dict V → Type 0
Distinct [] = Unit
Distinct ((k, v) ∷ d) = (Dict.get k d ≡ none) × Distinct d

pub put-Distinct :
    {V : Type 0} (k : String) (v : V) (d : Dict.Dict V) → Distinct d → Distinct (Dict.put k v d)
unfolding Dict.put Dict.get
put-Distinct k v [] h = (refl, tt)
put-Distinct k v ((j, w) ∷ d) (m, h) = elim (Bool-cases (str_eq j k)) [
  | inl same ↦ rw same (m, h)
  | inr other ↦
      rw other (ground (arith, Dict.get-put k j v d, eq_iff j k, eq_iff k j), put-Distinct k v d h)
]

pub delete-Distinct :
    {V : Type 0} (k : String) (d : Dict.Dict V) → Distinct d → Distinct (Dict.delete k d)
unfolding Dict.delete
delete-Distinct k [] h = tt
delete-Distinct k ((j, w) ∷ d) (m, h) = elim (Bool-cases (str_eq j k)) [
  | inl same ↦ rw same (delete-Distinct k d h)
  | inr other ↦ rw other (ground (arith, Dict.get-delete k j d), delete-Distinct k d h)
]

pub received-append :
    (id : String) (a b : List (String × Message))
    → received id (a ++ b) ≡ received id a ++ received id b
unfolding received
received-append id [] b = refl
received-append id ((k, m) ∷ a) b = ground (arith, received-append id a b)

-- what one event brings to a client that is there, or not
pub deliveries-absent :
    (is_open : String → Bool) (e : ExecutionEvent) (id : String) (cs : Dict.Dict WsClient)
    → Dict.get id cs ≡ none
    → received id (deliveries is_open e cs) ≡ []
unfolding received deliveries Dict.get
deliveries-absent is_open e id [] h = refl
deliveries-absent is_open e id ((k, c) ∷ cs) h =
    ground (arith, deliveries-absent is_open e id cs, eq_iff k id)

pub deliveries-present :
    (is_open : String → Bool) (e : ExecutionEvent) (id : String) (c : WsClient)
    (cs : Dict.Dict WsClient)
    → Distinct cs
    → Dict.get id cs ≡ some c
    → is_open id ≡ true
    → received id (deliveries is_open e cs)
      ≡ (if wants c.job_filter e then message_of e ∷ [] else [])
unfolding received deliveries Dict.get
deliveries-present is_open e id c [] d h o = cc
deliveries-present is_open e id c ((k, b) ∷ cs) (m, d) h o =
    ground (
      arith,
      deliveries-present is_open e id c cs d,
      deliveries-absent is_open e id cs,
      eq_iff k id,
    )
