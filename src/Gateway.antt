-- ===== src/Gateway.antt =====
-- src/gateway: the policies of the Gateway API.
pub mod Timeouts
