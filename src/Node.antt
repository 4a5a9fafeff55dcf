-- ===== src/Node.antt =====
-- internal/node.
pub mod Store
pub mod Allocated
pub mod Capacity
pub mod Choice
pub mod Reserve
