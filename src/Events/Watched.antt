-- ===== src/Events/Watched.antt =====
-- The observer on a bus with other callbacks, against the observer alone.
use codehive.Prelude.{
  sym, true, ◌-◌, ap, inr, inl, str_eq, ◌∙◌, Bool-cases, false, String, if◌then◌else◌, zero, ◌≡◌,
  Bool, suc, List, ◌∷◌, [], ℕ, refl,
}
use codehive.Events.{
  Act, subscribes, unsubscribes, meets, Hub, call_back, each, act, acts, init, Emitter,
  observer_callback, emit_execution_update,
}
use codehive.Events.Counts.{times, count, count-subscribe, count-unsubscribe}
use codehive.Events.Hears.{LeftAlone, touches, emit-bus}
use codehive.Observer.{
  initial, step, follow, Observer, ExecutionEvent, Happening, emit, destroy, connect, closed,
  failed, ready, broadcast,
}

-- what happens to the observer
abbrev pub met : List Act → List Happening
met [] = []
met (a ∷ more) = let rest = met more in elim a [ meets x ↦ x ∷ rest | _ ↦ rest ]

-- the observer's callback, as often as it is subscribed
unfoldable broadcasts : ℕ → ExecutionEvent → Observer → Observer
broadcasts zero e o = o
broadcasts (suc n) e o = broadcasts n e (broadcast e o)

-- the callback is on the bus once, or it is not
abbrev on_bus : Bool → ℕ
on_bus b = if b then 1 else 0

follow-met :
    (a : Act) (more : List Act) (o : Observer)
    → follow (met more) (follow (met (a ∷ [])) o) ≡ follow (met (a ∷ more)) o
unfolding follow
follow-met (subscribes m) more o = refl
follow-met (unsubscribes m) more o = refl
follow-met (meets x) more o = refl

module _ {B : Type 0} (E : Emitter B) where
  each-observer :
      (e : ExecutionEvent) (ls : List String) (h : Hub B)
      → (each (call_back E e) ls h).observer ≡ broadcasts (times observer_callback ls) e h.observer
  unfolding each call_back times broadcasts
  each-observer e [] h = refl
  each-observer e (m ∷ ls) h = elim (Bool-cases (str_eq m observer_callback)) [
    | inl same ↦ each-observer e ls (call_back E e m h) ∙ rw same refl
    | inr other ↦ each-observer e ls (call_back E e m h) ∙ rw other refl
  ]

  abbrev Linked : Hub B → Type 0
  Linked h = count E observer_callback h.bus ≡ on_bus h.observer.subscribed

  emit-observer :
      (e : ExecutionEvent) (h : Hub B)
      → Linked h
      → (emit_execution_update E e h).observer ≡ step (emit e) h.observer
  unfolding emit_execution_update broadcasts step
  emit-observer e h l =
      ap (λ k. k.observer) (E.emits-listeners _ _ h.bus h)
      ∙ each-observer e _ h
      ∙ ap (λ n. broadcasts n e h.observer) l
      ∙ elim (Bool-cases h.observer.subscribed) [ inl s ↦ rw s refl | inr s ↦ rw s refl ]

  step-subscribed :
      (e : ExecutionEvent) (o : Observer) → (step (emit e) o).subscribed ≡ o.subscribed
  unfolding step broadcast
  step-subscribed e o = elim (Bool-cases o.subscribed) [ inl s ↦ rw s refl | inr s ↦ rw s refl ]

  at_most : (b : Bool) → on_bus b - 1 ≡ 0
  at_most true = refl
  at_most false = refl

  act-observer :
      (a : Act) (h : Hub B)
      → touches observer_callback a ≡ false
      → Linked h
      → ((act E a h).observer ≡ follow (met (a ∷ [])) h.observer) × Linked (act E a h)
  unfolding act follow step
  act-observer (subscribes m) h t l = (refl, count-subscribe E m observer_callback h.bus ∙ rw t l)
  act-observer (unsubscribes m) h t l =
      (refl, count-unsubscribe E m observer_callback h.bus ∙ rw t l)
  act-observer (meets (emit e)) h t l = (
    emit-observer e h l,
    ap (count E observer_callback) (emit-bus E e h)
        ∙ l
        ∙ ap on_bus
            (sym (ap (λ o. o.subscribed) (emit-observer e h l) ∙ step-subscribed e h.observer)),
  )
  act-observer (meets destroy) h t l = (
    refl,
    count-unsubscribe E observer_callback observer_callback h.bus
        ∙ rw l (at_most h.observer.subscribed),
  )
  act-observer (meets (connect id f)) h t l = (refl, l)
  act-observer (meets (closed id)) h t l = (refl, l)
  act-observer (meets (failed id)) h t l = (refl, l)
  act-observer (meets (ready id b)) h t l = (refl, l)

  acts-observer :
      (more : List Act) (h : Hub B)
      → LeftAlone observer_callback more
      → Linked h
      → (acts E more h).observer ≡ follow (met more) h.observer
  unfolding acts follow
  acts-observer [] h t l = refl
  acts-observer (a ∷ more) h (t, u) l =
      let (same, linked) = act-observer a h t l in
      acts-observer more (act E a h) u linked
      ∙ ap (follow (met more)) same
      ∙ follow-met a more h.observer

-- Once the observer has subscribed, on a bus where its callback was not, it goes through the same states
-- as it does alone: an event on the bus reaches it exactly once until it is destroyed, and not after,
-- whichever other callbacks subscribe or are taken from the bus; nobody else takes its callback from the
-- bus or subscribes it again.
pub acts-follow :
    {B : Type 0} (E : Emitter B) (h : Hub B) (more : List Act)
    → count E observer_callback h.bus ≡ 0
    → LeftAlone observer_callback more
    → (acts E more (init E h)).observer ≡ follow (met more) initial
acts-follow E h more off alone = acts-observer E more (init E h) alone on ∙ (unfold init in refl)
  where
    on : Linked E (init E h)
    on = (unfold init in count-subscribe E observer_callback observer_callback h.bus ∙ ap suc off)
