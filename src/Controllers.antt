-- ===== src/Controllers.antt =====
-- controllers/: the HTTP handlers.
pub mod Base
pub mod Invalidation
pub mod UserController
pub mod RoleController
pub mod Answers
pub mod Tests
