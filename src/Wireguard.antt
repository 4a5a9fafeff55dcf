-- ===== src/Wireguard.antt =====
-- internal/wireguard: the peers of the mesh network, in the database and on the interface of the hub.
pub mod Model
pub mod Store
pub mod Validate
pub mod Service
pub mod ClientConfig
pub mod Handler
pub mod Range
pub mod Sync
pub mod Disable
