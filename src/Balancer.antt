-- ===== src/Balancer.antt =====
-- The client-side balancer of the etcd registry: pkg/registry/etcd/balancer.go.
pub mod State
pub mod Topology
pub mod Pick
pub mod Report
pub mod Examples
