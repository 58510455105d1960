-- ===== src/CashMovements.antt =====
-- Cash movements: src/cash-movements.
pub mod Transition
pub mod Repository
pub mod Input
pub mod Service
pub mod Tests
