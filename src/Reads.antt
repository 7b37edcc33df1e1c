-- ===== src/Reads.antt =====
-- pmiri/read_projection.py and pmiri/read_operations.py: the calls that a transport makes.
pub mod Projection
pub mod Uniform
pub mod Operations
pub mod Emitted
pub mod Fenced
mod Shaped
pub mod Answered
pub mod Parity
