-- ===== src/Driver.antt =====
-- internal/drivers: the discovery of eRDMA devices on the node.
pub mod Expose
pub mod Guid
pub mod Select
pub mod Shell
pub mod Install
pub mod Pnet
pub mod Probe
pub mod Registry
pub mod Other
pub mod Examples
