-- ===== src/Policy.antt =====
-- policy/: the policy owner. `Config` loads the bias map, `Evaluator` turns a condition receipt into
-- a persisted policy trace; the other children prove what they do.
mod Config
mod Evaluator
pub mod Eligibility
pub mod Traces
pub mod Required
unfoldable pub use Config.*
unfoldable pub use Evaluator.*
