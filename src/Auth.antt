-- ===== src/Auth.antt =====
-- pmiri/request_auth.py: the trusted boundary that authenticates and authorizes requests.
pub mod Replay
pub mod Rate
pub mod Principal
pub mod Registry
pub mod Adapters
pub mod InMemory
pub mod Service
