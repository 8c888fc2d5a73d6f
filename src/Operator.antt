-- ===== src/Operator.antt =====
-- The operator's reconciliation of applications and of its Config: controllers/bpfman-operator.
pub mod Application
pub mod Objects
pub mod Config
pub mod Startup
