-- ===== src/Services.antt =====
-- services/: what the controllers ask of the database.
pub mod Input
pub mod UserService
pub mod RoleService
pub mod Tests
