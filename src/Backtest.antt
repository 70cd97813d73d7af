-- ===== src/Backtest.antt =====
-- settlement/backtest.py: the backtest replay owner. `Amounts` has its arithmetic, `Record` the
-- recording of a fill; `Order` proves what a recorded fill rests on and that fills move forward.
mod Amounts
mod Record
mod Close
mod Open
pub mod Finality
pub mod Order
pub mod Accounts
pub mod Ledger
unfoldable pub use Amounts.*
unfoldable pub use Record.*
unfoldable pub use Close.*
unfoldable pub use Open.*
