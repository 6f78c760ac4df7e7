-- ===== src/App.antt =====
-- internal/app: the parts of the service put together.
pub mod Api
pub mod Config
pub mod Build
pub mod Lifecycle
