-- ===== src/Executor/Failed.antt =====
-- `executeJob` of api/src/services/executor.ts where the process cannot be started, over either backend.
use codehive.Queue.Spec.{Spec}
use codehive.Queue.World.{World}
use codehive.Queue.Platform.{Platform}
use codehive.Queue.Spec.Serves.{Serves}
