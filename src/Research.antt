-- ===== src/Research.antt =====
-- research_loop: the profile governor and the review of improvement proposals.
mod Scores
mod Governor
mod Proposals
mod Decision
mod Candidate
mod Review
pub mod Actions
pub mod Accepts
pub mod Governs
pub mod Reviews
unfoldable pub use Scores.*
unfoldable pub use Governor.*
unfoldable pub use Proposals.*
unfoldable pub use Decision.*
unfoldable pub use Candidate.*
unfoldable pub use Review.*
