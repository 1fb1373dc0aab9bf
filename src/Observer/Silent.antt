-- ===== src/Observer/Silent.antt =====
-- When api/src/services/ws-observer.ts sends nothing.
use codehive.Prelude.{
  eq_refl, false, inr, inl, arith, Bool-cases, str_eq, ◌∷◌, [], none, ◌++◌, Bool, List, String, ◌≡◌,
  refl, ap, ◌∙◌,
}
use codehive.Prelude.Dict
use codehive.Observer.{
  ready, emit, failed, closed, destroy, connect, broadcast, Observer, Happening, step, follow,
  deliveries,
}
use mathlib.Core.List.{append-nil}
use codehive.Observer.Deliveries.{received, received-append, deliveries-absent}

off_bus :
    (h : Happening) (o : Observer)
    → o.subscribed ≡ false
    → ((step h o).subscribed ≡ false) × ((step h o).sent ≡ o.sent)
unfolding step
off_bus (emit e) o b = rw b (refl, refl)
off_bus destroy o b = (refl, refl)
off_bus (connect k g) o b = (b, refl)
off_bus (closed k) o b = (b, refl)
off_bus (failed k) o b = (b, refl)
off_bus (ready k c) o b = (b, refl)

follow-off_bus :
    (hs : List Happening) (o : Observer) → o.subscribed ≡ false → (follow hs o).sent ≡ o.sent
unfolding follow
follow-off_bus [] o b = refl
follow-off_bus (h ∷ hs) o b =
    let (next, same) = off_bus h o b in follow-off_bus hs (step h o) next ∙ same

-- After `destroy`, nothing is sent to anyone, whoever connects and whatever is emitted.
pub destroyed-silent :
    (o : Observer) (hs : List Happening) → (follow hs (step destroy o)).sent ≡ o.sent
unfolding step
destroyed-silent o hs = follow-off_bus hs (step destroy o) refl

abbrev connects : String → Happening → Bool
connects id (connect k f) = str_eq k id
connects id _ = false

abbrev pub NeverConnects : String → List Happening → Type 0
NeverConnects id [] = Unit
NeverConnects id (h ∷ hs) = (connects id h ≡ false) × NeverConnects id hs

gone :
    (id : String) (h : Happening) (o : Observer)
    → connects id h ≡ false
    → Dict.get id o.clients ≡ none
    → (Dict.get id (step h o).clients ≡ none) × (received id (step h o).sent ≡ received id o.sent)
unfolding step broadcast
gone id (connect k g) o t a = (rw Dict.get-put (rw t a), refl)
gone id (closed k) o t a = (ground (arith, Dict.get-delete k id o.clients), refl)
gone id (failed k) o t a = (ground (arith, Dict.get-delete k id o.clients), refl)
gone id (ready k b) o t a = (a, refl)
gone id (emit e) o t a = elim (Bool-cases o.subscribed) [
  | inl s ↦ rw s (
    a,
    received-append id o.sent (deliveries o.is_open e o.clients)
        ∙ ap (λ r. received id o.sent ++ r) (deliveries-absent o.is_open e id o.clients a)
        ∙ append-nil _,
  )
  | inr s ↦ rw s (a, refl)
]
gone id destroy o t a = ((unfold Dict.get in refl), refl)

follow-gone :
    (id : String) (hs : List Happening) (o : Observer)
    → NeverConnects id hs
    → Dict.get id o.clients ≡ none
    → received id (follow hs o).sent ≡ received id o.sent
unfolding follow
follow-gone id [] o t a = refl
follow-gone id (h ∷ hs) o (t, u) a =
    let (next, same) = gone id h o t a in follow-gone id hs (step h o) u next ∙ same

-- A client whose socket was closed is sent nothing more, as long as it does not connect again.
pub closed-silent :
    (id : String) (o : Observer) (hs : List Happening)
    → NeverConnects id hs
    → received id (follow hs (step (closed id) o)).sent ≡ received id o.sent
unfolding step
closed-silent id o hs t =
    follow-gone id hs (step (closed id) o) t (rw Dict.get-delete (rw (eq_refl id) refl))
