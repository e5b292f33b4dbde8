-- ===== src/Database.antt =====
-- packages/database: the tables, and the repositories whose methods read and change them.
pub mod Records
pub mod Tables
pub mod Lifecycle
pub mod RuntimeChanges
pub mod Recovery
pub mod Idle
pub mod Scheduling
pub mod Coherence
pub mod Steps
pub mod Workspaces
pub mod Row
pub mod Users
pub mod Workers
pub mod ModelKeys
pub mod Keys
pub mod WorkerEgress
pub mod Samples
pub mod Requests
