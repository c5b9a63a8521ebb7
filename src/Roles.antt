-- ===== src/Roles.antt =====
-- internal/gamecore/roles: succession.go, by which a gang gets a new leader, and visibility.go, by
-- which a player sees no secrets of another.
pub mod Assignment
pub mod Succession
pub mod Visibility
