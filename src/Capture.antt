-- ===== src/Capture.antt =====
-- capture/lane_status.py: the freshness of the capture lanes, and the receipt that features keep.
mod Rules
mod Receipts
mod States
mod Snapshots
pub mod Newest
pub mod Fresh
pub mod Healthy
pub mod Authorizes
unfoldable pub use Rules.*
unfoldable pub use Receipts.*
unfoldable pub use States.*
unfoldable pub use Snapshots.*
