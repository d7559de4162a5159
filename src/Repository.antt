-- ===== src/Repository.antt =====
-- backend/internal/repository: each method is its SQL statement, as a function on the tables.
pub mod Quiet
pub mod Tests
pub mod Tasks
pub mod Projects
pub mod Users
pub mod RefreshTokens
pub mod Webhooks
