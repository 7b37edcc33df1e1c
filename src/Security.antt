-- ===== src/Security.antt =====
-- pmiri/security.py: the records that bind authority, purpose and material, and the decisions over
-- them.
pub mod Scope
pub mod Subject
pub mod Classification
pub mod Egress
