-- ===== src/Hub/Service.antt =====
-- api/hub/service.py: `PurchaseService`, its two entry points.
pub mod Enqueue
pub mod Process
pub mod Arming
pub mod Armed
pub mod Accepted
