-- ===== src/Program/Tests.antt =====
-- A token program and a transaction on which the theorems are tried.
pub mod Toy
pub mod Instructions
pub mod Claims
