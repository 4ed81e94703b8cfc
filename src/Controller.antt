-- ===== src/Controller.antt =====
-- internal/controller: the reconcilers of nodes and of ERdmaDevice resources.
pub mod Remove
pub mod Device
pub mod Watch
pub mod Backfill
pub mod Node
pub mod Setup
pub mod Life
pub mod Examples
