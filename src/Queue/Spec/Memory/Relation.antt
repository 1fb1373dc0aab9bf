-- ===== src/Queue/Spec/Memory/Relation.antt =====
-- What the memory queue of api/src/services/queue.ts holds of an abstract state.
use codehive.Prelude.{◌≡◌, ◌<◌, some, String, List, [], ◌∷◌, str_eq, false, length}
use codehive.Prelude.Dict
use codehive.Queue.World.{World, Ref}
use codehive.Queue.Memory.{tail_order, find}
use codehive.Queue.Service.{chosen}
use codehive.Queue.Spec.{Spec}

abbrev pub AllNamed : List String → Type 0
AllNamed [] = Unit
AllNamed (id ∷ ids) = (str_eq id "" ≡ false) × AllNamed ids

pub AllNamed-tail : (ids : List String) → AllNamed ids → AllNamed (tail_order ids)
AllNamed-tail [] h = h
AllNamed-tail (id ∷ ids) h = h.1

-- The references of the memory queue are in bounds, and no two keys share an object.
pub record Implements {S : Type 0} (w : World S) (s : Spec) : Type 0 where
  pub backend : chosen w ≡ false
  pub order : w.mem.order ≡ s.pending
  pub jobs : (k : String) → find w k ≡ s.job k
  pub named : AllNamed s.pending
  pub in_bounds : (k : String) (r : Ref) → Dict.get k w.mem.jobs ≡ some r → r < length w.heap
  pub apart :
      (j k : String) (r : Ref)
      → Dict.get j w.mem.jobs ≡ some r
      → Dict.get k w.mem.jobs ≡ some r
      → j ≡ k
