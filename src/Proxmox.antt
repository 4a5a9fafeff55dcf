-- ===== src/Proxmox.antt =====
-- internal/proxmox: the part that waits for tasks and reads errors.
pub mod Task
pub mod Wait
