-- ===== src/Docker.antt =====
-- internal/lab/docker: the harness that runs fixture containers.
pub mod Names
pub mod Engine
pub mod Spec
pub mod Invariants
pub mod Peers
pub mod Image
pub mod BuildStream
pub mod Client
pub mod Leaks
pub mod Run
pub mod Exec
pub mod Fixture
pub mod Cleanup
pub mod Topology
pub mod PeerCheck
