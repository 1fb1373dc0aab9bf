-- ===== src/Queue/Spec/Memory.antt =====
-- The memory backend of api/src/services/queue.ts does what the specification says: the relation to an
-- abstract state, the effects of the calls, and their refinement.
pub mod Relation
pub mod Effects
pub mod Preserve
pub mod Calls
pub mod Found
pub use codehive.Queue.Spec.Memory.Relation.{AllNamed, AllNamed-tail, Implements}
pub use codehive.Queue.Spec.Memory.Effects.{look_up_state}
pub use codehive.Queue.Spec.Memory.Preserve.{
  chosen-get_redis, AllNamed-append, look_up-Implements, write-Implements, ref_of_job,
}
pub use codehive.Queue.Spec.Memory.Calls.{call-Implements, update_job-Implements}
pub use codehive.Queue.Spec.Memory.Found.{
  get_job-IsFound_memory, dequeue-IsFound_memory, dequeued_memory, changed_state_memory,
}
