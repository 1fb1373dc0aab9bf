-- ===== src/Dashboard.antt =====
-- The dashboard's client: dashboard/src/lib/api.ts and dashboard/src/lib/stores.ts.
pub mod Stores
pub mod Client
pub mod Format
pub mod Socket
pub mod Page
pub mod Badge
pub mod Card
pub mod App
pub mod History
pub mod Settings
pub mod Layout
mod Tests
