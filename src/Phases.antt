-- ===== src/Phases.antt =====
-- The phase handlers of internal/controller/migration_controller.go, and the hooks of hook_runner.go.
pub mod Power
pub mod Disks
pub mod Volumes
pub mod Kubevirt
pub mod Cleanup
pub mod Delta
pub mod Warm
pub mod Hooks
pub mod Frame
