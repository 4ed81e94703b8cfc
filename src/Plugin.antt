-- ===== src/Plugin.antt =====
-- internal/deviceplugin: the kubelet device plugin for eRDMA devices.
pub mod Devices
pub mod Allocate
pub mod PodResource
pub mod PodConfig
pub mod Clients
pub mod PreStart
pub mod Server
pub mod Runtime
pub mod Examples
