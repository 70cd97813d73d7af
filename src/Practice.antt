-- ===== src/Practice.antt =====
-- paper_runtime: the training regimens of paper practice, and the walk-forward replay of their
-- history.
mod Profiles
mod Windows
mod WalkForward
pub mod Tiling
pub mod Blind
pub mod Ahead
pub mod Bounds
pub mod Plans
pub mod Finishes
unfoldable pub use Profiles.*
unfoldable pub use Windows.*
unfoldable pub use WalkForward.*
