-- ===== src/Pipeline.antt =====
-- The paper pipeline as a whole: capture, policy, risk, intent and settlement as steps on one
-- database, and where a paper fill comes from.
mod Steps
mod Sources
pub mod Raises
pub mod Keeps
pub mod Settling
pub mod Traced
pub mod Settleable
pub use Steps.*
pub use Sources.*
