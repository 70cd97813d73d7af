-- ===== src/Intent.antt =====
-- execution_intent/owner.py: the intent owner, between risk and settlement.
mod Evaluation
mod Owner
pub mod Ready
pub mod Created
unfoldable pub use Evaluation.*
unfoldable pub use Owner.*
