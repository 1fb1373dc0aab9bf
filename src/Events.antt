-- ===== src/Events.antt =====
-- api/src/services/events.ts: the event bus, its subscribers, and the observer of
-- api/src/services/ws-observer.ts as one of them. The `EventEmitter` of Node is a record of operations with
-- their documented behaviour. A callback is named; the observer's has a name of its own.
pub mod Counts
pub mod Hears
pub mod Watched
mod Tests
use codehive.Prelude.{◌≡◌, ℕ, String, Bool, List, [], ◌∷◌, ◌++◌, str_eq, if◌then◌else◌, reverse}
use codehive.Observer.{
  Observer, Happening, ExecutionEvent, step, broadcast, initial, emit, destroy, connect, closed,
  failed, ready,
}

-- the callbacks of a list, called one after the other
unfoldable pub each : {S : Type 0} → (String → S → S) → List String → S → S
each call [] s = s
each call (l ∷ ls) s = each call ls (call l s)

-- a list without the first `l` of it
unfoldable pub without : String → List String → List String
without l [] = []
without l (m ∷ ls) = let rest = without l ls in if str_eq m l then ls else m ∷ rest

-- What the documentation of `EventEmitter` says: `on` adds a listener behind those that are there, `off`
-- takes away the one instance of a listener that was added last, and `emit` calls the listeners of the
-- moment in their order.
pub record Emitter (B : Type 0) : Type 1 where
  pub on : String → String → B → B
  pub off : String → String → B → B
  pub listeners : String → B → List String
  pub emits : {S : Type 0} → String → (String → S → S) → B → S → S
  pub listeners-on :
      (name other l : String) (b : B)
      → listeners other (on name l b)
        ≡ (if str_eq name other then listeners other b ++ l ∷ [] else listeners other b)
  pub listeners-off :
      (name other l : String) (b : B)
      → listeners other (off name l b) ≡ (
          if str_eq name other
          then reverse (without l (reverse (listeners other b)))
          else listeners other b)
  pub emits-listeners :
      {S : Type 0} (name : String) (call : String → S → S) (b : B) (s : S)
      → emits name call b s ≡ each call (listeners name b) s

abbrev pub update_event : String
update_event = "execution:update"

-- the name of the callback that the observer subscribes
abbrev pub observer_callback : String
observer_callback = "wsObserver"

-- the bus, the observer, and what every other callback was called with
pub record Hub (B : Type 0) : Type 0 where
  pub bus : B
  pub observer : Observer
  pub heard : List (String × ExecutionEvent)

-- what happens: a callback is subscribed, the function that `subscribe` returned for it is called, or
-- something happens to the observer, where `emit` is `emitExecutionUpdate` of the bus
pub data Act : Type 0 where
  subscribes : String → Act
  unsubscribes : String → Act
  meets : Happening → Act

module _ {B : Type 0} (E : Emitter B) where
  -- `subscribe`, and the function that it returns
  unfoldable pub subscribe : String → B → B
  subscribe l b = E.on update_event l b

  unfoldable pub unsubscribe : String → B → B
  unsubscribe l b = E.off update_event l b

  -- one callback: the observer broadcasts
  unfoldable pub call_back : ExecutionEvent → String → Hub B → Hub B
  call_back e l h =
      if str_eq l observer_callback
      then record h { observer = broadcast e h.observer }
      else record h { heard = h.heard ++ (l, e) ∷ [] }

  unfoldable pub emit_execution_update : ExecutionEvent → Hub B → Hub B
  emit_execution_update e h = E.emits update_event (call_back e) h.bus h

  -- `init` of the observer
  unfoldable pub init : Hub B → Hub B
  unfolding subscribe
  init h = record h { bus = subscribe observer_callback h.bus; observer = initial }

  unfoldable pub act : Act → Hub B → Hub B
  unfolding subscribe unsubscribe emit_execution_update
  act (subscribes l) h = record h { bus = subscribe l h.bus }
  act (unsubscribes l) h = record h { bus = unsubscribe l h.bus }
  act (meets (emit e)) h = emit_execution_update e h
  act (meets destroy) h = record h {
    bus = unsubscribe observer_callback h.bus;
    observer = step destroy h.observer;
  }
  act (meets (connect id f)) h = record h { observer = step (connect id f) h.observer }
  act (meets (closed id)) h = record h { observer = step (closed id) h.observer }
  act (meets (failed id)) h = record h { observer = step (failed id) h.observer }
  act (meets (ready id b)) h = record h { observer = step (ready id b) h.observer }

  unfoldable pub acts : List Act → Hub B → Hub B
  unfolding act
  acts [] h = h
  acts (a ∷ more) h = acts more (act a h)
