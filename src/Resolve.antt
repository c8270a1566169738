-- ===== src/Resolve.antt =====
-- resolve/: the expansion engine's parts.
pub mod OpStack
pub mod Rpki
pub mod Claims
pub mod Expand
pub mod MemSource
