-- ===== src/Lab.antt =====
-- internal/lab: the decisions of the demonstration services.
pub mod Checkout
pub mod Fault
pub mod Pool
