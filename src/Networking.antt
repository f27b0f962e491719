-- ===== src/Networking.antt =====
-- plugin/pkg/networking: the interfaces of a node and its iptables rules.
pub mod Iptables
pub mod Interfaces
