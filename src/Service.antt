-- ===== src/Service.antt =====
-- backend/internal/service: the services between the handlers and the repositories.
mod Tests
pub mod Events
pub mod Announce
pub mod Errors
pub mod Opaque
pub mod Frame
pub mod Tasks
pub mod Projects
pub mod Auth
