-- ===== src/Tests.antt =====
-- The runs and the witnesses on small concrete inputs.
mod Runs
mod Policy
mod Risk
mod Intent
mod Paper
mod Closing
mod Pipeline
mod Practice
mod Backtest
mod Live
mod Capture
mod Research
