-- ===== src/Lib.antt =====
-- The decision path of the D5 trading engine, from a scored condition to a closed paper session,
-- its backtest ledger, the gates of micro-live execution, the freshness of the capture lanes, and
-- the review of improvement proposals: the owners of policy, risk, execution intent, paper and
-- backtest settlement, and the tables of the truth store between them. Each owner reads rows that
-- another one wrote, decides, and appends its own rows in one database session; they meet only in
-- the database.
--
-- Parts and files, with paths under src/d5_trading_engine/:
--  * storage/truth/models.py is Truth: a record per row class (Upstream, Decisions, PaperRows,
--    BacktestRows), the Database with one list per table in insertion order, and the results of a
--    call (Outcome). A call works on a copy of the database that its commit puts in place; a call
--    that raises leaves the database as it was (finish).
--  * policy/global_regime_v1.py is Policy: Config (rules, validation, loading), Evaluator
--    (_select_condition_run, _load_snapshot, _evaluate_snapshot, _persist_trace, evaluate).
--    Eligibility, Traces and Required hold the proofs.
--  * risk/gate.py is Risk: Freshness (_parse_freshness_authorization), Verdict
--    (_evaluate_policy_trace), Gate (_persist_verdict, _serialize_verdict,
--    evaluate_global_regime_v1, check_trade). Lanes, Decisions and Trades hold the proofs.
--  * execution_intent/owner.py is Intent: Evaluation (_evaluate_inputs), Owner
--    (create_spot_intent). Ready and Created hold the proofs.
--  * settlement/paper.py is Paper: Validation, Metrics, Store, Skip, Fill (simulate_fill), Close
--    (simulate_close), Portfolio (get_portfolio_state). Guards, Checks, Exits, Inserts, Rows,
--    Settles, Completes, Fillable, Closes and Closures hold the proofs.
--  * settlement/backtest.py is Backtest: Open (open_spot_session), Record (record_fill), Close
--    (close_session), Amounts (_apply_fill and the fee). Order, Accounts, Ledger and Finality
--    hold the proofs. The replay ledger shares the token tables with paper settlement and nothing
--    else.
--  * Pipeline puts the owners together: Steps is the step relation of their calls, in any order
--    and with any arguments, between which the owners upstream may change their tables; Sources
--    says what every row has behind it; Raises, Keeps, Settling, Traced and Settleable hold the
--    proofs.
--  * live_execution/ is Live: Readiness (readiness.py), Arm (arm_state.py: the state file and its
--    expiry) and Executor (jupiter_micro.py: execute_swap, its guards and its ledger). Ready,
--    Refines, Guarded and Swaps hold the proofs; Refines also has the abstract machine that the
--    state file implements.
--  * capture/lane_status.py is Capture: Rules (the rules and the lane of a receipt), Receipts
--    (the rows and the newest of each lane), States (one lane) and Snapshots
--    (build_feature_lane_snapshot, build_capture_lane_status_snapshot). Newest, Fresh, Healthy
--    and Authorizes hold the proofs; Authorizes puts the receipt and its reading by the risk gate
--    together.
--  * research_loop/profile_governor.py is Scores (candidates and their scores) and Governor
--    (disagreement and action) of Research, and research_loop/proposal_review.py its Proposals
--    (rows and context), Decision (_build_decision), Candidate (_governor_candidate) and Review
--    (review_proposal). Actions, Accepts, Governs and Reviews hold the proofs.
--  * paper_runtime/ is Practice: Profiles (training_profiles.py), Windows (the loop of
--    run_backtest_walk_forward in practice.py) and WalkForward (its history, its checks and the
--    whole). Tiling, Blind, Ahead, Bounds, Plans and Finishes hold the proofs. The scorer, the
--    model comparison and the replay of one window are the record Replayer.
--  * config/settings.py and common/time_utils.py are Settings and Base.Time. Base holds tests,
--    lists, members of lists, stable ordering of rows, lists of failing checks, integers, and
--    Python's int() and str() on texts.
--  * Samples and Tests hold a small database, a run of the whole path on it, and the witnesses.
--
-- What is a parameter: binary floats, orjson and the primary keys that the database gives are the
-- fields of one record (Env), which every component takes; IsCodec and IsObjectCodec are the two
-- laws that are used of it: orjson reads back a list of texts that it wrote, and an object of
-- finite numbers within 64 bits with each key once. float(text), round, abs and
-- datetime.fromisoformat are fields too; that fromisoformat reads an expiry back is a hypothesis
-- where it is used. The HTTP API and the signer of a swap are the record Venue. That the scorer,
-- the comparison and the replay of a window do not read rows from a time on when they are given
-- rows before it, and the comparison an end date before it (its _filter_history keeps the buckets
-- up to the midnight of that date), is the hypothesis IsBlind where it is used. The YAML parser,
-- pydantic's field checks and the hash of the policy file are fields of PolicySource. The clock
-- is the argument `now`.
--
-- How it is modelled: times are microseconds since the epoch; a naive time of a column is taken
-- as UTC, as ensure_utc does. Integers are Python's, without a bound. An f-string is a
-- concatenation of texts. int(), strip(), lower() and the granularity pattern read ASCII digits,
-- blanks and letters. Rows are found by the first match in insertion order, which for a primary
-- or a unique key is the only one; order_by(...).desc().first() is the best row by the listed
-- keys, and the first in insertion order of equal ones, whose order SQL leaves open. Keys that a
-- write meets are checked where it is flushed: unique session and intent keys, the NOT NULL
-- columns of a fill, and its foreign keys. Every function is total. The loop of the walk-forward
-- alone takes fuel, two more than the last time of the history in microseconds, which is enough
-- because a window advances by at least one; that it is enough is proved. A swap keeps the list
-- of what it asks of the outside, in order, and its ledger. The windows of the capture lanes are
-- whole minutes, so that four fifths of them are exact.
--
-- Not modelled: logging; the capture runners, normalization, features, condition scoring and
-- models, which are I/O or calls of numeric libraries and whose rows are taken as they come; the
-- external signer; the collection of a proposal's source context, which is an argument of the
-- review, and the files and receipts that a review writes; the policy file of the governor; the
-- rest of the research loop; the paper cycle, the practice loop, the replay of one window and the
-- receipts of the walk-forward; the command line and reporting.
pub mod Base
pub mod Json
pub mod Live
pub mod Capture
pub mod Research
pub mod Env
pub mod Truth
pub mod Settings
pub mod Policy
pub mod Risk
pub mod Intent
pub mod Paper
pub mod Backtest
pub mod Pipeline
pub mod Practice
pub mod Samples
mod Tests
