-- ===== src/Config.antt =====
-- src/config/mod.rs: small readers of directives, and the servers of a configuration. A text is the
-- list of its bytes.
pub mod Policies
pub mod Servers
pub mod Values
pub mod Directives
