-- ===== src/Ipam.antt =====
-- plugin/pkg/ipam: which subnet a network has, and which address a container or a service has.
pub mod Lease
pub mod Selection
pub mod Pool
pub mod Space
pub mod Subnet
