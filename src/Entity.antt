-- ===== src/Entity.antt =====
-- internal/entity.
pub mod Pair
pub mod Rate
pub mod Update
