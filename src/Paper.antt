-- ===== src/Paper.antt =====
-- settlement/paper.py: the paper settlement owner. `Validation` and `Metrics` are its checks and
-- amounts, `Store` its writes, `Skip`, `Fill` and `Close` its two operations, `Portfolio` its reads.
mod Validation
mod Metrics
mod Store
mod Skip
mod Fill
mod Close
mod Portfolio
pub mod Guards
pub mod Checks
pub mod Inserts
pub mod Rows
pub mod Settles
pub mod Exits
pub mod Closes
pub mod Closures
pub mod Completes
pub mod Fillable
unfoldable pub use Validation.*
unfoldable pub use Metrics.*
unfoldable pub use Store.*
unfoldable pub use Skip.*
unfoldable pub use Fill.*
unfoldable pub use Close.*
unfoldable pub use Portfolio.*
