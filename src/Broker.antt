-- ===== src/Broker.antt =====
-- internal/broker: one node of the cluster.
pub mod Config
pub mod Controller
pub mod Service
pub mod Link
pub mod Topics
pub mod Replication
pub mod Writers
pub mod Failover
pub mod Start
pub mod Tests
