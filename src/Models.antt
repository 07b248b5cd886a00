-- ===== src/Models.antt =====
-- models/: the persistence models, as drogon_ctl writes them for each table.
pub mod Column
pub mod Dates
pub mod Reading
pub mod Fields
pub mod Insertion
pub mod Placeholders
pub mod Roles
pub mod Permissions
pub mod Users
pub mod Keyed
pub mod RolePermissions
pub mod UserPermissions
pub mod KeyedTests
pub mod Tests
pub mod ReadTests
