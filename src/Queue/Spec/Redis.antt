-- ===== src/Queue/Spec/Redis.antt =====
-- The Redis backend of api/src/services/queue.ts does what the specification says: the relation to an
-- abstract state, the effects of the calls, and their refinement.
pub mod Relation
pub mod Effects
pub mod Calls
pub mod Found
pub use codehive.Queue.Spec.Redis.Relation.{Stores}
pub use codehive.Queue.Spec.Redis.Calls.{
  look_up-Stores, look_up_loaded, stored-Stores, call-Stores, update_job-Stores,
}
pub use codehive.Queue.Spec.Redis.Found.{
  get_job-IsFound_redis, dequeue-IsFound_redis, changed_state_redis, dequeued_redis,
}
