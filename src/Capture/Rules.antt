-- ===== src/Capture/Rules.antt =====
-- capture/lane_status.py: the freshness rules of the capture lanes, and the lane of a receipt.
use defi_engine.Base.{
  ℕ, ◌*◌, String, Bool, true, false, ◌&&◌, Option, none, some, List, [], ◌∷◌, if◌then◌else◌, str_eq,
  is_nil, ◌≡◌, refl,
}
use mathlib.Core.List.{reverse}
use defi_engine.Base.Text.{codes, strip, lower, starts}
use defi_engine.Base.Time.{or_else}

pub record CaptureLaneRule : Type 0 where
  pub provider : String
  pub capture_type : String
  pub expectation_class : String
  pub freshness_window : ℕ
  pub health_endpoint_suffixes : List String
  pub readiness_only : Bool
  pub uses_raw_receipt_presence : Bool

-- timedelta(...), in microseconds.
abbrev pub minutes : ℕ → ℕ
minutes n = n * 60_000_000

abbrev pub hours : ℕ → ℕ
hours n = n * 3_600_000_000

abbrev pub days : ℕ → ℕ
days n = n * 86_400_000_000

abbrev lane_rule : String → String → String → ℕ → List String → Bool → CaptureLaneRule
lane_rule provider capture_type expectation window suffixes raw = record {
  provider = provider;
  capture_type = capture_type;
  expectation_class = expectation;
  freshness_window = window;
  health_endpoint_suffixes = suffixes;
  readiness_only = false;
  uses_raw_receipt_presence = raw;
}

abbrev pub capture_lane_rules : List (String × CaptureLaneRule)
capture_lane_rules =
    (
      "jupiter-tokens",
      lane_rule "jupiter" "tokens" "operator_reference_refresh" (hours 24) ("/tokens/v2" ∷ [])
          false,
    )
    ∷ (
      "jupiter-prices",
      lane_rule "jupiter" "prices" "recurring_market_snapshot" (minutes 15)
          ("/price/v3" ∷ "/price/v2" ∷ []) false,
    )
    ∷ (
      "jupiter-quotes",
      lane_rule "jupiter" "quotes" "recurring_market_snapshot" (minutes 15)
          ("/swap/v1/quote" ∷ "/quote" ∷ []) false,
    )
    ∷ (
      "helius-transactions",
      lane_rule "helius" "enhanced_transactions" "recurring_chain_state_pull" (minutes 30)
          ("/transactions" ∷ []) false,
    )
    ∷ (
      "helius-discovery",
      lane_rule "helius" "account_discovery" "discovery_backfill_refresh" (hours 24)
          ("getaccountinfo" ∷ []) false,
    )
    ∷ (
      "helius-ws-events",
      lane_rule "helius" "ws_events" "bounded_stream_receipt_lane" (minutes 15)
          ("transactionsubscribe" ∷ []) true,
    )
    ∷ (
      "coinbase-products",
      lane_rule "coinbase" "products" "reference_refresh" (hours 24)
          ("/market/products" ∷ "/products" ∷ []) false,
    )
    ∷ (
      "coinbase-candles",
      lane_rule "coinbase" "candles" "recurring_market_data_lane" (minutes 30) ("/candles" ∷ [])
          false,
    )
    ∷ (
      "coinbase-market-trades",
      lane_rule "coinbase" "market_trades" "recurring_market_data_lane" (minutes 30)
          ("/ticker" ∷ "/trades" ∷ []) false,
    )
    ∷ (
      "coinbase-book",
      lane_rule "coinbase" "book" "recurring_market_data_lane" (minutes 30)
          ("/product_book" ∷ "product_book" ∷ []) false,
    )
    ∷ (
      "fred-series",
      lane_rule "fred" "series" "operator_reference_refresh" (days 7)
          ("series_info" ∷ "/series" ∷ []) false,
    )
    ∷ (
      "fred-observations",
      lane_rule "fred" "observations" "slower_macro_lane" (days 2)
          ("/observations" ∷ "observations" ∷ []) false,
    )
    ∷ (
      "massive-crypto",
      lane_rule "massive" "crypto_reference" "operator_reference_refresh" (days 1)
          ("crypto_reference" ∷ []) false,
    )
    ∷ []

abbrev pub default_required_capture_lanes : List String
default_required_capture_lanes =
    "jupiter-prices" ∷ "jupiter-quotes" ∷ "helius-transactions" ∷ "coinbase-products"
    ∷ "coinbase-candles" ∷ "coinbase-market-trades" ∷ "coinbase-book" ∷ "fred-observations" ∷ []

-- `CAPTURE_LANE_RULES[lane_name]`; `none` is the KeyError.
unfoldable pub rule_of : String → List (String × CaptureLaneRule) → Option CaptureLaneRule
rule_of lane_name [] = none
rule_of lane_name ((name, rule) ∷ rules) =
    if str_eq name lane_name then some rule else rule_of lane_name rules

-- `_lane_name_for_run`
unfoldable pub lane_name_for_run : String → String → List (String × CaptureLaneRule) → Option String
lane_name_for_run provider capture_type [] = none
lane_name_for_run provider capture_type ((name, rule) ∷ rules) =
    if str_eq rule.provider provider && str_eq rule.capture_type capture_type
    then some name
    else lane_name_for_run provider capture_type rules

-- `any(text.endswith(suffix) for suffix in suffixes)`, on codes.
abbrev ends_with : List ℕ → List String → Bool
ends_with endpoint [] = false
ends_with endpoint (suffix ∷ suffixes) =
    if starts (reverse (codes suffix)) (reverse endpoint) then true else ends_with endpoint suffixes

-- The loop of `_lane_name_for_health_event`, on the normalized endpoint.
unfoldable pub lane_name_for_endpoint :
    String → List ℕ → List (String × CaptureLaneRule) → Option String
lane_name_for_endpoint provider endpoint [] = none
lane_name_for_endpoint provider endpoint ((name, rule) ∷ rules) =
    if str_eq rule.provider provider && ends_with endpoint rule.health_endpoint_suffixes
    then some name
    else lane_name_for_endpoint provider endpoint rules

-- `_lane_name_for_health_event`
unfoldable pub lane_name_for_health_event : String → Option String → Option String
unfolding strip lane_name_for_endpoint
lane_name_for_health_event provider endpoint =
    let normalized = lower (strip (codes (or_else endpoint ""))) in
    if is_nil normalized
    then none
    else lane_name_for_endpoint provider normalized capture_lane_rules

ticker_test :
    lane_name_for_health_event "coinbase" (some " /Products/BTC-USD/Ticker ")
    ≡ some "coinbase-market-trades"
unfolding lane_name_for_health_event str_eq
ticker_test = refl
