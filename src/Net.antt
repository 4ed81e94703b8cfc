-- ===== src/Net.antt =====
-- internal/drivers: the network side of the agent's drivers.
pub mod Mtu
pub mod Routes
pub mod Device
pub mod Examples
