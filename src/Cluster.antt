-- ===== src/Cluster.antt =====
-- zero/kv/cluster: the parts of the cluster that are modelled.
pub mod Slot
