-- ===== src/Events/Counts.antt =====
-- How often a callback stands among the listeners of the bus.
use mathlib.Core.List.{reverse-cons}
use codehive.Prelude.{
  ◌∙◌, ap, eq_iff, ◌-◌, ◌+◌, suc, ℕ, String, List, [], ◌∷◌, ◌++◌, ◌≡◌, refl, arith, str_eq,
  if◌then◌else◌, reverse,
}
use codehive.Events.{without, Emitter, subscribe, unsubscribe, update_event}

unfoldable pub times : String → List String → ℕ
times l [] = 0
times l (m ∷ ls) = let rest = times l ls in if str_eq m l then suc rest else rest

pub times-append : (l : String) (a b : List String) → times l (a ++ b) ≡ times l a + times l b
unfolding times
times-append l [] b = ground arith
times-append l (m ∷ a) b = ground (arith, times-append l a b)

times-reverse : (l : String) (a : List String) → times l (reverse a) ≡ times l a
unfolding times
times-reverse l [] = refl
times-reverse l (m ∷ a) =
    ap (times l) (reverse-cons m a)
    ∙ times-append l (reverse a) (m ∷ [])
    ∙ ground (arith, times-reverse l a)

times-without :
    (l k : String) (a : List String)
    → times k (without l a) ≡ (if str_eq l k then times k a - 1 else times k a)
unfolding times without
times-without l k [] = ground (arith)
times-without l k (m ∷ a) = ground (arith, times-without l k a, eq_iff m l, eq_iff l k, eq_iff m k)

module _ {B : Type 0} (E : Emitter B) where
  -- the listeners of the updates
  abbrev pub count : String → B → ℕ
  count l b = times l (E.listeners update_event b)

  pub count-subscribe :
      (l k : String) (b : B)
      → count k (subscribe E l b) ≡ (if str_eq l k then suc (count k b) else count k b)
  unfolding subscribe times
  count-subscribe l k b =
      ap (times k) (E.listeners-on update_event update_event l b)
      ∙ times-append k (E.listeners update_event b) (l ∷ [])
      ∙ ground arith

  pub count-unsubscribe :
      (l k : String) (b : B)
      → count k (unsubscribe E l b) ≡ (if str_eq l k then count k b - 1 else count k b)
  unfolding unsubscribe
  count-unsubscribe l k b =
      ap (times k) (E.listeners-off update_event update_event l b)
      ∙ times-reverse k (without l (reverse (E.listeners update_event b)))
      ∙ times-without l k (reverse (E.listeners update_event b))
      ∙ ap (λ n. if str_eq l k then n - 1 else n) (times-reverse k (E.listeners update_event b))
