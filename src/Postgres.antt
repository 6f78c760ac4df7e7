-- ===== src/Postgres.antt =====
-- internal/adapter/postgres.
pub mod Schema
pub mod Tx
pub mod Select
pub mod Row
pub mod Queue
pub mod Store
pub mod Steps
pub mod Effect
pub mod Evolution
pub mod Invariant
pub mod Lifecycle
pub mod Fencing
pub mod Latest
pub mod Worker
pub mod Claim
pub mod Idempotency
pub mod UpdateId
pub mod Migrate
pub mod ReadBack
