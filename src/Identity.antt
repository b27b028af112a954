-- ===== src/Identity.antt =====
-- internal/identity/identity.go: labels, host patterns and the hostnames built from them.
mod Tests
pub mod Label
pub mod Pattern
pub mod Host
