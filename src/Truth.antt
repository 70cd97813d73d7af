-- ===== src/Truth.antt =====
-- storage/truth: the tables that the modelled owners read and write, and the database that holds
-- them. A table is a list of rows in insertion order.
mod Upstream
mod Decisions
mod PaperRows
mod BacktestRows
mod Outcome
mod Tables
pub mod Returns
pub use Upstream.*
pub use Decisions.*
pub use PaperRows.*
pub use BacktestRows.*
unfoldable pub use Outcome.*
pub use Tables.*
