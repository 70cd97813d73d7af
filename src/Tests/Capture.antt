-- ===== src/Tests/Capture.antt =====
-- The witness of the properties of the capture lanes: one lane with a successful run and a health
-- event, and the receipt that a feature run keeps of it.
use defi_engine.Base.{refl, ◌+◌, String, none, some, List, [], ◌∷◌, str_eq}
use defi_engine.Base.Sort.{order_by}
use defi_engine.Base.Text.{strip}
use defi_engine.Json.{Json, object, is_writable, has_key}
use defi_engine.Truth.{◌>>=◌, or_raise, FeatureMaterializationRun}
use defi_engine.Capture.{
  CaptureTables, build_feature_lane_snapshot, resolve_lane_states, lane_states, lane_state, rule_of,
  lane_snapshot, receipts_of, latest_runs, latest_health, latest_ws_receipt, collect_runs,
  collect_events, row_of, keep_first, run_lane, event_lane, lane_name_for_run,
  lane_name_for_health_event, lane_name_for_endpoint, freshness_state, freshness_of,
  latest_error_summary, blocking_of, distinct,
}
use defi_engine.Capture.Authorizes.{Authorizes, feature_snapshot-Authorizes}
use defi_engine.Samples.{sample_env, sample-IsObjectCodec, noon}
use defi_engine.Tests.Runs.{the, answered}

abbrev tables : CaptureTables
tables = record {
  ingest_runs =
      record {
        id = 1;
        run_id = "jup_1";
        provider = "jupiter";
        capture_type = "quotes";
        status = "success";
        started_at = noon;
        finished_at = some noon;
        error_message = none;
      }
      ∷ [];
  health_events =
      record {
        id = 1;
        provider = "jupiter";
        endpoint = some "https://api.jup.ag/swap/v1/quote";
        is_healthy = 1;
        error_message = none;
        checked_at = noon;
      }
      ∷ [];
  helius_ws_events = [];
}

abbrev entries : List (String × Json sample_env.Float)
unfolding build_feature_lane_snapshot resolve_lane_states lane_states lane_state rule_of
    lane_snapshot receipts_of latest_runs latest_health latest_ws_receipt collect_runs
    collect_events row_of keep_first run_lane event_lane lane_name_for_run
    lane_name_for_health_event lane_name_for_endpoint freshness_state freshness_of
    latest_error_summary blocking_of distinct ◌>>=◌ or_raise str_eq order_by strip
entries =
    the
      (answered (
        build_feature_lane_snapshot tables ("jupiter-quotes" ∷ []) [] (noon + 60_000_000)
          (noon + 60_000_000)))
      refl

abbrev feature_run : FeatureMaterializationRun sample_env
feature_run = record {
  id = 1;
  run_id = "feat";
  freshness_snapshot_json = some (some (object entries));
}

feature_snapshot-Authorizes_example :
    Authorizes sample_env tables ("jupiter-quotes" ∷ []) [] (noon + 60_000_000) feature_run entries
unfolding build_feature_lane_snapshot resolve_lane_states lane_states lane_state rule_of
    lane_snapshot receipts_of latest_runs latest_health latest_ws_receipt collect_runs
    collect_events row_of keep_first run_lane event_lane lane_name_for_run
    lane_name_for_health_event lane_name_for_endpoint freshness_state freshness_of
    latest_error_summary blocking_of distinct ◌>>=◌ or_raise str_eq order_by strip is_writable
    has_key
feature_snapshot-Authorizes_example =
    feature_snapshot-Authorizes sample_env sample-IsObjectCodec tables ("jupiter-quotes" ∷ []) []
      (noon + 60_000_000) (noon + 60_000_000) entries feature_run refl refl refl
