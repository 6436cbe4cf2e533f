-- ===== src/Scripts.antt =====
-- The smaller scripts of scripts/.
pub mod Listing
pub mod Reuse
pub mod Balance
pub mod Planning
pub mod Engine
pub mod Settling
