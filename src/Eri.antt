-- ===== src/Eri.antt =====
-- internal/controller/eri.go: the client of the cloud API that finds, creates, converts, attaches
-- and tags the elastic RDMA interfaces (ERIs) of a node.
pub mod Client
pub mod Select
pub mod Create
pub mod Choose
pub mod Connect
pub mod Ensure
pub mod Frame
pub mod Examples
