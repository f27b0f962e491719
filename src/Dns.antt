-- ===== src/Dns.antt =====
-- plugin/pkg/dns: the names of containers and services, and the name servers.
pub mod Resolver
pub mod Rules
pub mod Server
