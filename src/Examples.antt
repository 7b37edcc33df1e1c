-- ===== src/Examples.antt =====
-- Runs of the code on small inputs, and the theorems applied to them.
pub mod Hosts
pub mod Principals
pub mod Ports
pub mod Rules
pub mod Records
pub mod Verdicts
pub mod Secrets
pub mod Reads
pub mod Answers
pub mod Logs
pub mod Sources
