-- ===== src/Events/Hears.antt =====
-- What a callback of the bus is called with.
use mathlib.Core.List.{append-nil}
use mathlib.Core.List.{append_assoc, append-nil}
use codehive.Prelude.{
  ◌-◌, eq_refl, eq_iff, inr, inl, zero, Bool-cases, suc, sym, arith, str_eq, ap, ◌∙◌, false, Bool,
  ◌++◌, if◌then◌else◌, ◌≡◌, List, String, ◌∷◌, [], ℕ, refl,
}
use codehive.Events.{
  Act, subscribes, unsubscribes, meets, Hub, call_back, each, act, acts, Emitter, observer_callback,
  emit_execution_update,
}
use codehive.Events.Counts.{times, count, count-subscribe, count-unsubscribe}
use codehive.Observer.{ExecutionEvent, emit, destroy, connect, closed, failed, ready}

-- the events that a callback was called with, in order
unfoldable pub heard_by : String → List (String × ExecutionEvent) → List ExecutionEvent
heard_by l [] = []
heard_by l ((m, e) ∷ log) = let rest = heard_by l log in if str_eq m l then e ∷ rest else rest

-- an event as often as a callback is subscribed
unfoldable pub copies : ℕ → ExecutionEvent → List ExecutionEvent
copies zero e = []
copies (suc n) e = e ∷ copies n e

heard_by-append :
    (l : String) (a b : List (String × ExecutionEvent))
    → heard_by l (a ++ b) ≡ heard_by l a ++ heard_by l b
unfolding heard_by
heard_by-append l [] b = refl
heard_by-append l ((m, e) ∷ a) b = ground (arith, heard_by-append l a b)

-- the events that are emitted
abbrev pub emitted : List Act → List ExecutionEvent
emitted [] = []
emitted (a ∷ more) =
    let rest = emitted more in
    elim a [ meets x ↦ elim x [ emit e ↦ e ∷ rest | _ ↦ rest ] | _ ↦ rest ]

-- nobody subscribes this callback, or takes it from the bus
abbrev pub touches : String → Act → Bool
touches l (subscribes m) = str_eq m l
touches l (unsubscribes m) = str_eq m l
touches l (meets x) = false

abbrev pub LeftAlone : String → List Act → Type 0
LeftAlone l [] = Unit
LeftAlone l (a ∷ more) = (touches l a ≡ false) × LeftAlone l more

emitted-cons : (a : Act) (more : List Act) → emitted (a ∷ []) ++ emitted more ≡ emitted (a ∷ more)
emitted-cons (meets (emit e)) more = refl
emitted-cons (meets destroy) more = refl
emitted-cons (meets (connect id f)) more = refl
emitted-cons (meets (closed id)) more = refl
emitted-cons (meets (failed id)) more = refl
emitted-cons (meets (ready id b)) more = refl
emitted-cons (subscribes m) more = refl
emitted-cons (unsubscribes m) more = refl

module _ {B : Type 0} (E : Emitter B) where
  each-bus :
      (e : ExecutionEvent) (ls : List String) (h : Hub B) → (each (call_back E e) ls h).bus ≡ h.bus
  unfolding each call_back
  each-bus e [] h = refl
  each-bus e (l ∷ ls) h = each-bus e ls _ ∙ ground arith

  pub emit-bus : (e : ExecutionEvent) (h : Hub B) → (emit_execution_update E e h).bus ≡ h.bus
  unfolding emit_execution_update
  emit-bus e h = ap (λ k. k.bus) (E.emits-listeners _ _ h.bus h) ∙ each-bus e _ h

  call_back-heard :
      (e : ExecutionEvent) (l m : String) (h : Hub B)
      → str_eq observer_callback l ≡ false
      → heard_by l (call_back E e m h).heard
        ≡ heard_by l h.heard ++ (if str_eq m l then e ∷ [] else [])
  unfolding call_back heard_by
  call_back-heard e l m h o = elim (Bool-cases (str_eq m observer_callback)) [
    | inl observes ↦
        let other : str_eq m l ≡ false =
          ap (λ x. str_eq x l) ((eq_iff m observer_callback).0 observes) ∙ o in
        rw (observes, other) (sym (append-nil _))
    | inr other ↦ rw other (heard_by-append l h.heard ((m, e) ∷ []))
  ]

  each-heard :
      (e : ExecutionEvent) (l : String) (ls : List String) (h : Hub B)
      → str_eq observer_callback l ≡ false
      → heard_by l (each (call_back E e) ls h).heard ≡ heard_by l h.heard ++ copies (times l ls) e
  unfolding each call_back times copies heard_by
  each-heard e l [] h o = sym (append-nil _)
  each-heard e l (m ∷ ls) h o =
      each-heard e l ls (call_back E e m h) o
      ∙ ap (λ log. log ++ copies (times l ls) e) (call_back-heard e l m h o)
      ∙ append_assoc (heard_by l h.heard) _ _
      ∙ ap (λ log. heard_by l h.heard ++ log)
          (elim (Bool-cases (str_eq m l)) [ inl same ↦ rw same refl | inr other ↦ rw other refl ])

  emit-heard :
      (e : ExecutionEvent) (l : String) (h : Hub B)
      → str_eq observer_callback l ≡ false
      → heard_by l (emit_execution_update E e h).heard
        ≡ heard_by l h.heard ++ copies (count E l h.bus) e
  unfolding emit_execution_update
  emit-heard e l h o =
      ap (λ k. heard_by l k.heard) (E.emits-listeners _ _ h.bus h) ∙ each-heard e l _ h o

  -- a callback that nobody touches stays as often on the bus as it was
  act-count :
      (l : String) (a : Act) (h : Hub B)
      → str_eq observer_callback l ≡ false
      → touches l a ≡ false
      → count E l (act E a h).bus ≡ count E l h.bus
  unfolding act
  act-count l (subscribes m) h o t = count-subscribe E m l h.bus ∙ rw t refl
  act-count l (unsubscribes m) h o t = count-unsubscribe E m l h.bus ∙ rw t refl
  act-count l (meets (emit e)) h o t = ap (count E l) (emit-bus e h)
  act-count l (meets destroy) h o t = count-unsubscribe E observer_callback l h.bus ∙ rw o refl
  act-count l (meets (connect id f)) h o t = refl
  act-count l (meets (closed id)) h o t = refl
  act-count l (meets (failed id)) h o t = refl
  act-count l (meets (ready id b)) h o t = refl

  acts-count :
      (l : String) (more : List Act) (h : Hub B)
      → str_eq observer_callback l ≡ false
      → LeftAlone l more
      → count E l (acts E more h).bus ≡ count E l h.bus
  unfolding acts
  acts-count l [] h o t = refl
  acts-count l (a ∷ more) h o (t, u) = acts-count l more (act E a h) o u ∙ act-count l a h o t

  act-heard :
      (l : String) (a : Act) (h : Hub B)
      → str_eq observer_callback l ≡ false
      → touches l a ≡ false
      → count E l h.bus ≡ 1
      → heard_by l (act E a h).heard ≡ heard_by l h.heard ++ emitted (a ∷ [])
  unfolding act copies
  act-heard l (meets (emit e)) h o t one =
      emit-heard e l h o ∙ ap (λ n. heard_by l h.heard ++ copies n e) one
  act-heard l (meets destroy) h o t one = sym (append-nil _)
  act-heard l (meets (connect id f)) h o t one = sym (append-nil _)
  act-heard l (meets (closed id)) h o t one = sym (append-nil _)
  act-heard l (meets (failed id)) h o t one = sym (append-nil _)
  act-heard l (meets (ready id b)) h o t one = sym (append-nil _)
  act-heard l (subscribes m) h o t one = sym (append-nil _)
  act-heard l (unsubscribes m) h o t one = sym (append-nil _)

  act-unheard :
      (l : String) (a : Act) (h : Hub B)
      → str_eq observer_callback l ≡ false
      → count E l h.bus ≡ 0
      → heard_by l (act E a h).heard ≡ heard_by l h.heard
  unfolding act copies
  act-unheard l (meets (emit e)) h o off =
      emit-heard e l h o ∙ ap (λ n. heard_by l h.heard ++ copies n e) off ∙ append-nil _
  act-unheard l (meets destroy) h o off = refl
  act-unheard l (meets (connect id f)) h o off = refl
  act-unheard l (meets (closed id)) h o off = refl
  act-unheard l (meets (failed id)) h o off = refl
  act-unheard l (meets (ready id b)) h o off = refl
  act-unheard l (subscribes m) h o off = refl
  act-unheard l (unsubscribes m) h o off = refl

  acts-heard :
      (l : String) (more : List Act) (h : Hub B)
      → str_eq observer_callback l ≡ false
      → LeftAlone l more
      → count E l h.bus ≡ 1
      → heard_by l (acts E more h).heard ≡ heard_by l h.heard ++ emitted more
  unfolding acts
  acts-heard l [] h o t one = sym (append-nil _)
  acts-heard l (a ∷ more) h o (t, u) one =
      acts-heard l more (act E a h) o u (act-count l a h o t ∙ one)
      ∙ ap (λ log. log ++ emitted more) (act-heard l a h o t one)
      ∙ append_assoc (heard_by l h.heard) _ _
      ∙ ap (λ log. heard_by l h.heard ++ log) (emitted-cons a more)

  acts-unheard :
      (l : String) (more : List Act) (h : Hub B)
      → str_eq observer_callback l ≡ false
      → LeftAlone l more
      → count E l h.bus ≡ 0
      → heard_by l (acts E more h).heard ≡ heard_by l h.heard
  unfolding acts
  acts-unheard l [] h o t off = refl
  acts-unheard l (a ∷ more) h o (t, u) off =
      acts-unheard l more (act E a h) o u (act-count l a h o t ∙ off) ∙ act-unheard l a h o off

  subscribe-heard : (l : String) (h : Hub B) → (act E (subscribes l) h).heard ≡ h.heard
  unfolding act
  subscribe-heard l h = refl

  unsubscribe-heard : (l : String) (h : Hub B) → (act E (unsubscribes l) h).heard ≡ h.heard
  unfolding act
  unsubscribe-heard l h = refl

-- A callback that is not the observer's and is not on the bus subscribes, and is taken from the bus later.
-- It is called with exactly the events that were emitted in between, each once and in their order, whoever
-- else subscribes or is taken from the bus, and whatever happens to the observer; nobody else subscribes
-- that callback, or takes it from the bus.
pub subscribed-hears :
    {B : Type 0} (E : Emitter B) (l : String) (h : Hub B) (during after : List Act)
    → str_eq observer_callback l ≡ false
    → count E l h.bus ≡ 0
    → LeftAlone l during
    → LeftAlone l after
    → heard_by l
        (acts E after (act E (unsubscribes l) (acts E during (act E (subscribes l) h)))).heard
      ≡ heard_by l h.heard ++ emitted during
subscribed-hears E l h during after o off d a =
    acts-unheard E l after _ o a gone
    ∙ ap (heard_by l) (unsubscribe-heard E l _)
    ∙ acts-heard E l during _ o d on
    ∙ ap (λ log. heard_by l log ++ emitted during) (subscribe-heard E l h)
  where
    on : count E l (act E (subscribes l) h).bus ≡ 1
    on = (unfold act in count-subscribe E l l h.bus ∙ rw (eq_refl l) (ap suc off))

    gone : count E l (act E (unsubscribes l) (acts E during (act E (subscribes l) h))).bus ≡ 0
    gone =
        (unfold act in
          count-unsubscribe E l l _
          ∙ rw (eq_refl l)
              (ap (λ n. n - 1) (acts-count E l during (act E (subscribes l) h) o d ∙ on)))
