-- ===== src/Tests/Pipeline.antt =====
-- The witnesses of the pipeline's properties: the run of the sample, which ends with a fill.
use defi_engine.Base.{◌+◌, none, some}
use defi_engine.Base.Members.{All}
use defi_engine.Base.Time.{naive}
use defi_engine.Samples.{sample_env, sample_source, sample_settings, sample_db, noon}
use defi_engine.Pipeline.{
  Capture, evaluates, judges, proposes, fills, Reachable, start, next, Provenance,
}
use defi_engine.Pipeline.Traced.{Traced, fills-Traced, Reachable-Provenance}
use defi_engine.Tests.Runs.{traced, judged, intended, filled}

abbrev sample_capture : Capture sample_env
sample_capture = record {
  tokens = sample_db.tokens;
  token_metadata = sample_db.token_metadata;
  new_quotes = sample_db.quotes;
  feature_runs = sample_db.feature_runs;
  condition_runs = sample_db.condition_runs;
  condition_snapshots = sample_db.condition_snapshots;
}

filled_reached : Reachable sample_env sample_settings filled
filled_reached =
    next
      (next
        (next (next (start sample_capture) (evaluates sample_source none noon sample_db))
          (judges none noon traced))
        (proposes 1 1 (some (naive (noon + 60_000_000))) noon judged))
      (fills 1 (some (naive (noon + 90_000_000))) noon intended)

fills-Traced_example :
    All (Traced sample_env sample_settings filled.policy_traces) filled.paper_fills
fills-Traced_example = fills-Traced sample_env sample_settings filled filled_reached

Reachable-Provenance_example : Provenance sample_env sample_settings filled
Reachable-Provenance_example = Reachable-Provenance sample_env sample_settings filled filled_reached
