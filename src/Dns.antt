-- ===== src/Dns.antt =====
-- internal/dnsserver: the table of records and zones, and the handler of questions.
mod Tests
pub mod Table
pub mod Canonical
pub mod Records
pub mod Zones
pub mod Server
