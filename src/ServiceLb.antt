-- ===== src/ServiceLb.antt =====
-- plugin/pkg/service_lb: balancing the load of services.
pub mod Balancer
pub mod Fwmarks
pub mod Management
