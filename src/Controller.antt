-- ===== src/Controller.antt =====
-- The reconcile loop of internal/controller/migration_controller.go.
pub mod Advance
pub mod Sweep
pub mod Status
pub mod Reconcile
