-- ===== src/Usecase.antt =====
-- internal/usecase/quote.
pub mod Commands
pub mod Retry
pub mod Service
