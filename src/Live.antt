-- ===== src/Live.antt =====
-- live_execution: the readiness gate, the expiring arm state, and the swap that both of them guard.
mod Readiness
mod Arm
mod Executor
pub mod Ready
pub mod Refines
pub mod Guarded
pub mod Swaps
unfoldable pub use Readiness.*
unfoldable pub use Arm.*
unfoldable pub use Executor.*
