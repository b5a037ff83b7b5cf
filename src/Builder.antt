-- ===== src/Builder.antt =====
-- internal/builder: the KubeVirt VMs and their names.
pub mod Sanitize
pub mod Machine
