-- ===== src/Observer/Receives.antt =====
-- What a client of api/src/services/ws-observer.ts is sent while it is connected.
use codehive.Prelude.{
  eq_refl, Option, false, inr, inl, arith, Bool-cases, str_eq, ◌∷◌, if◌then◌else◌, true, [], some,
  ◌++◌, Bool, List, String, ◌≡◌, refl, sym, ap, ◌∙◌,
}
use codehive.Prelude.Dict
use codehive.Observer.{
  ready, initial, emit, failed, closed, destroy, connect, broadcast, Observer, Happening, step,
  follow, deliveries, wants, message_of, Message,
}
use mathlib.Core.List.{append_assoc, append-nil}
use codehive.Observer.Deliveries.{
  received, Distinct, put-Distinct, delete-Distinct, received-append, deliveries-present,
}

-- each client stands in the map once, whatever happens
step-Distinct : (h : Happening) (o : Observer) → Distinct o.clients → Distinct (step h o).clients
unfolding step broadcast
step-Distinct (connect id f) o d = put-Distinct id _ o.clients d
step-Distinct (closed id) o d = delete-Distinct id o.clients d
step-Distinct (failed id) o d = delete-Distinct id o.clients d
step-Distinct (ready id b) o d = d
step-Distinct (emit e) o d = elim (Bool-cases o.subscribed) [ inl s ↦ rw s d | inr s ↦ rw s d ]
step-Distinct destroy o d = tt

pub follow-Distinct :
    (hs : List Happening) (o : Observer) → Distinct o.clients → Distinct (follow hs o).clients
unfolding follow
follow-Distinct [] o d = d
follow-Distinct (h ∷ hs) o d = follow-Distinct hs (step h o) (step-Distinct h o d)

-- what happens to the socket `id`, or to the observer as a whole
abbrev pub touches : String → Happening → Bool
touches id (connect k f) = str_eq k id
touches id (closed k) = str_eq k id
touches id (failed k) = str_eq k id
touches id (ready k b) = str_eq k id
touches id (emit e) = false
touches id destroy = true

abbrev pub Undisturbed : String → List Happening → Type 0
Undisturbed id [] = Unit
Undisturbed id (h ∷ hs) = (touches id h ≡ false) × Undisturbed id hs

-- the messages on the events that a filter lets through
abbrev pub wanted : Option String → List Happening → List Message
wanted f [] = []
wanted f (h ∷ hs) =
    let rest = wanted f hs in
    elim h [ emit e ↦ if wants f e then message_of e ∷ rest else rest | _ ↦ rest ]

-- a client that listens
record Listens (id : String) (f : Option String) (o : Observer) : Type 0 where
  on_bus : o.subscribed ≡ true
  there : Dict.get id o.clients ≡ some (record { id = id; job_filter = f })
  ready_ : o.is_open id ≡ true
  distinct : Distinct o.clients

step-Listens :
    (id : String) (f : Option String) (h : Happening) (o : Observer)
    → touches id h ≡ false
    → Listens id f o
    → Listens id f (step h o)
unfolding step broadcast
step-Listens id f (connect k g) o t l = record {
  on_bus = l.on_bus;
  there = rw Dict.get-put (rw t l.there);
  ready_ = rw t l.ready_;
  distinct = put-Distinct k _ o.clients l.distinct;
}
step-Listens id f (closed k) o t l = record {
  on_bus = l.on_bus;
  there = rw Dict.get-delete (rw t l.there);
  ready_ = l.ready_;
  distinct = delete-Distinct k o.clients l.distinct;
}
step-Listens id f (failed k) o t l = record {
  on_bus = l.on_bus;
  there = rw Dict.get-delete (rw t l.there);
  ready_ = l.ready_;
  distinct = delete-Distinct k o.clients l.distinct;
}
step-Listens id f (ready k b) o t l = record {
  on_bus = l.on_bus;
  there = l.there;
  ready_ = rw t l.ready_;
  distinct = l.distinct;
}
step-Listens id f (emit e) o t l =
    rw l.on_bus
      (record { on_bus = refl; there = l.there; ready_ = l.ready_; distinct = l.distinct })
step-Listens id f destroy o t l = cc

step-received :
    (id : String) (f : Option String) (h : Happening) (o : Observer)
    → touches id h ≡ false
    → Listens id f o
    → received id (step h o).sent ≡ received id o.sent ++ wanted f (h ∷ [])
unfolding step broadcast
step-received id f (emit e) o t l = rw l.on_bus (
    received-append id o.sent (deliveries o.is_open e o.clients)
    ∙ ap (λ r. received id o.sent ++ r)
        (deliveries-present o.is_open e id _ o.clients l.distinct l.there l.ready_))
step-received id f destroy o t l = cc
step-received id f (connect k g) o t l = sym (append-nil _)
step-received id f (closed k) o t l = sym (append-nil _)
step-received id f (failed k) o t l = sym (append-nil _)
step-received id f (ready k b) o t l = sym (append-nil _)

wanted-cons :
    (f : Option String) (h : Happening) (hs : List Happening)
    → wanted f (h ∷ []) ++ wanted f hs ≡ wanted f (h ∷ hs)
wanted-cons f (emit e) hs = ground arith
wanted-cons f destroy hs = refl
wanted-cons f (connect k g) hs = refl
wanted-cons f (closed k) hs = refl
wanted-cons f (failed k) hs = refl
wanted-cons f (ready k b) hs = refl

follow-received :
    (id : String) (f : Option String) (hs : List Happening) (o : Observer)
    → Undisturbed id hs
    → Listens id f o
    → received id (follow hs o).sent ≡ received id o.sent ++ wanted f hs
unfolding follow
follow-received id f [] o u l = sym (append-nil _)
follow-received id f (h ∷ hs) o (t, u) l =
    follow-received id f hs (step h o) u (step-Listens id f h o t l)
    ∙ rw (step-received id f h o t l) (
        append_assoc (received id o.sent) (wanted f (h ∷ [])) (wanted f hs)
        ∙ ap (λ r. received id o.sent ++ r) (wanted-cons f h hs))

connect-Listens :
    (id : String) (f : Option String) (o : Observer)
    → o.subscribed ≡ true
    → Distinct o.clients
    → Listens id f (step (connect id f) o)
unfolding step
connect-Listens id f o b d = record {
  on_bus = b;
  there = rw Dict.get-put (rw (eq_refl id) refl);
  ready_ = rw (eq_refl id) refl;
  distinct = put-Distinct id _ o.clients d;
}

connect-sent :
    (id : String) (f : Option String) (o : Observer) → (step (connect id f) o).sent ≡ o.sent
unfolding step
connect-sent id f o = refl

-- After any history in which the observer is still on the bus, a client connects with a job filter, or
-- with none. While nothing happens to its socket and the observer is not destroyed, the client is sent
-- exactly the events that its filter lets through, each once and in their order, whatever the other
-- clients do.
pub connected-receives :
    (id : String) (f : Option String) (before hs : List Happening)
    → (follow before initial).subscribed ≡ true
    → Undisturbed id hs
    → received id (follow hs (step (connect id f) (follow before initial))).sent
      ≡ received id (follow before initial).sent ++ wanted f hs
connected-receives id f before hs s u =
    follow-received id f hs _ u
      (connect-Listens id f (follow before initial) s (follow-Distinct before initial tt))
    ∙ ap (λ log. received id log ++ wanted f hs) (connect-sent id f (follow before initial))
