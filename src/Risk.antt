-- ===== src/Risk.antt =====
-- risk/gate.py: the risk owner. `Freshness` reads the freshness receipt, `Verdict` decides, `Gate`
-- persists and answers.
mod Freshness
mod Verdict
mod Gate
pub mod Lanes
pub mod Decisions
pub mod Trades
unfoldable pub use Freshness.*
unfoldable pub use Verdict.*
unfoldable pub use Gate.*
