-- ===== src/Http.antt =====
-- internal/adapter/httpapi. What the standard library parses and prints for the handlers is an
-- argument (`Library`), and so are the service, the notifier and the readiness check (`Handler`).
pub mod Request
pub mod Response
pub mod Dto
pub mod Router
pub mod Handler
pub mod Middleware
pub mod Admission
