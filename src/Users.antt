-- ===== src/Users.antt =====
-- src/users/users: the users of an organization, over the tables of users, roles and branches.
pub mod Repository
pub mod Dto
pub mod Service
pub mod Tests
