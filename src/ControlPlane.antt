-- ===== src/ControlPlane.antt =====
-- The SQLite control plane of pmiri/control_plane.py, a table as a dictionary of its rows by primary
-- key. `BEGIN IMMEDIATE` ... `commit` makes each method one atomic step; a rollback leaves the table.
pub mod Epoch
pub mod Rates
pub mod Replays
pub mod Payload
pub mod Principals
