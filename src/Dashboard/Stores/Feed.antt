-- ===== src/Dashboard/Stores/Feed.antt =====
-- The live feed of dashboard/src/lib/stores.ts over any sequence of messages.
use codehive.Prelude.{
  inr, inl, Bool-cases, ℕ, zero, suc, ◌≤◌, take, ◌≡◌, refl, sym, ap, ◌∙◌, List, [], ◌∷◌, ◌++◌,
  reverse, Option, none, some, String, if◌then◌else◌, arith,
}
use codehive.Dashboard.Stores.{Execution, Stores, on_ws_message, add_message, is_update}
use mathlib.Core.List.{append-nil, reverse-append, append_assoc}

take-take : {A : Type 0} (m n : ℕ) (xs : List A) → m ≤ n → take m (take n xs) ≡ take m xs
take-take zero n xs h = refl
take-take (suc m) zero xs h = absurd (omega (arith, h))
take-take (suc m) (suc n) [] h = refl
take-take (suc m) (suc n) (x ∷ xs) h = ap (λ l. x ∷ l) (take-take m n xs (omega arith))

-- a new item in front of a list that was cut already
take-cons : {A : Type 0} (n : ℕ) (x : A) (xs : List A) → take n (x ∷ take n xs) ≡ take n (x ∷ xs)
take-cons zero x xs = refl
take-cons (suc n) x xs = ap (λ l. x ∷ l) (take-take n (suc n) xs (omega arith))

-- what a message brings to the feed
abbrev pub payload_of : Option (String × Execution) → List Execution
payload_of none = []
payload_of (some (type, payload)) = if is_update type then payload ∷ [] else []

module _ {D : Type 0} (parse : String → Option (String × Execution)) where
  unfoldable pub receive : List String → Stores D → Stores D
  receive [] s = s
  receive (text ∷ rest) s = receive rest (on_ws_message parse text s)

module _ (parse : String → Option (String × Execution)) where
  abbrev pub payloads : List String → List Execution
  payloads [] = []
  payloads (text ∷ rest) = payload_of (parse text) ++ payloads rest

add_message-eq :
    (m : Option (String × Execution)) (g : List Execution)
    → add_message m (take 50 g) ≡ take 50 (reverse (payload_of m) ++ g)
add_message-eq none g = refl
add_message-eq (some (type, payload)) g = elim (Bool-cases (is_update type)) [
  | inl u ↦ rw u (take-cons 50 payload g)
  | inr u ↦ rw u refl
]

receive-feed :
    {D : Type 0} (parse : String → Option (String × Execution)) (texts : List String)
    (g : List Execution) (s : Stores D)
    → s.live_feed ≡ take 50 g
    → (receive parse texts s).live_feed ≡ take 50 (reverse (payloads parse texts) ++ g)
unfolding receive on_ws_message
receive-feed parse [] g s h = h
receive-feed parse (text ∷ rest) g s h =
    receive-feed parse rest (reverse (payload_of (parse text)) ++ g) (on_ws_message parse text s)
      (ap (add_message (parse text)) h ∙ add_message-eq (parse text) g)
    ∙ ap (take 50) (
        sym (append_assoc (reverse (payloads parse rest)) (reverse (payload_of (parse text))) g)
        ∙ ap (λ l. l ++ g) (sym (reverse-append (payload_of (parse text)) (payloads parse rest))))

-- From an empty feed, after any messages the feed holds the payloads of the execution messages, the latest
-- first and at most 50 of them; a text that does not parse, and any other message, changes nothing.
pub receive-latest :
    {D : Type 0} (parse : String → Option (String × Execution)) (texts : List String) (s : Stores D)
    → s.live_feed ≡ []
    → (receive parse texts s).live_feed ≡ take 50 (reverse (payloads parse texts))
receive-latest parse texts s h =
    receive-feed parse texts [] s h ∙ ap (take 50) (append-nil (reverse (payloads parse texts)))
