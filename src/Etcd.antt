-- ===== src/Etcd.antt =====
-- plugin/pkg/etcd: the keys of a client, conditional writes, and the stores that mirror a part of
-- the cluster in memory.
pub mod Client
pub mod Connection
pub mod Store
pub mod ReadOnly
pub mod Sharded
pub mod WriteOnly
