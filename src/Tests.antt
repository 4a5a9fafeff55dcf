-- ===== src/Tests.antt =====
-- The theorems at concrete inputs, and runs of the definitions.
mod Setup
mod Nodes
mod Projects
mod Tenants
mod Runs
mod Addresses
mod Users
mod Auth
mod Edges
mod Wireguard
