-- ===== src/Branches.antt =====
-- The branches of an organization: src/branches.
pub mod Repository
pub mod Access
pub mod Service
pub mod Tests
