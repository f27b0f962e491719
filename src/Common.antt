-- ===== src/Common.antt =====
-- plugin/pkg/common: the containers and the service object that the other packages share.
pub mod Act
pub mod Result
pub mod ConcurrentMap
pub mod DualKeyMap
pub mod Compare
pub mod Service
pub mod Event
pub mod InitManager
