-- ===== src/Paper/Store.antt =====
-- settlement/paper.py: the writes of paper settlement, with the constraints that the database puts
-- on them: unique session keys, NOT NULL columns and the foreign keys of a fill.
use Prim.Native.String.{◌++◌ as text_append}
use defi_engine.Base.{
  ℕ, String, Bool, true, not, ◌&&◌, Option, none, some, List, [], ◌∷◌, ◌++◌, map, ◌==◌, str_eq,
  find_first, is_none,
}
use defi_engine.Base.Text.{str_ℕ, join}
use defi_engine.Base.Time.{Instant, stamp}
use defi_engine.Env.{Env}
use defi_engine.Truth.{
  Database, Result, return, integrity_error, ◌>>◌, raise_if, PaperSession, PaperFill, PaperPosition,
  PaperSessionReport,
}

-- `_build_session_key`
unfoldable pub build_session_key : ℕ → Instant → String
unfolding stamp str_ℕ
build_session_key execution_intent_id attempted_at =
    text_append "paper_"
      (text_append (stamp attempted_at) (text_append "_intent" (str_ℕ execution_intent_id)))

-- `_summarize_skip`
unfoldable pub summarize_skip : List String → String
unfolding join
summarize_skip reason_codes =
    text_append
      "Paper settlement skipped because the explicit execution intent or its quote provenance was incompatible: "
      (join ", " reason_codes)

-- Some row passes the test.
module _ {ℓ} {A : Type ℓ} where
  abbrev pub exists : (A → Bool) → List A → Bool
  exists p xs = not (is_none (find_first p xs))

module _ (E : Env) where
  open E use {Float, Encoded, new_id}

  unfoldable pub session_key_taken : Database E → String → Bool
  session_key_taken db key = exists (λ row. str_eq row.session_key key) db.paper_sessions

  -- Adding a session and flushing it.
  unfoldable pub insert_session : Database E → PaperSession E → Result (Database E)
  unfolding session_key_taken
  insert_session db row = do
    raise_if (session_key_taken db row.session_key)
        (integrity_error "UNIQUE constraint failed: paper_session.session_key")
    return (record db { paper_sessions = db.paper_sessions ++ row ∷ [] })

  abbrev pub references : Option ℕ → (ℕ → Bool) → Bool
  references none p = true
  references (some id) p = p id

  unfoldable pub foreign_keys_hold : Database E → PaperFill E → Bool
  foreign_keys_hold db row =
      exists (λ s. s.id == row.session_id) db.paper_sessions
      && (references row.execution_intent_id (λ id. exists (λ i. i.id == id) db.intents)
          && (exists (λ v. v.id == row.risk_verdict_id) db.risk_verdicts
              && (exists (λ t. t.id == row.policy_trace_id) db.policy_traces
                  && (exists (λ c. c.id == row.condition_snapshot_id) db.condition_snapshots
                      && (exists (λ f. str_eq f.run_id row.source_feature_run_id) db.feature_runs
                          && exists (λ q. q.id == row.quote_snapshot_id) db.quotes)))))

  -- Adding a fill and flushing it.
  unfoldable pub insert_fill : Database E → PaperFill E → Result (Database E)
  unfolding foreign_keys_hold
  insert_fill db row = do
    raise_if (not (foreign_keys_hold db row)) (integrity_error "FOREIGN KEY constraint failed")
    return (record db { paper_fills = db.paper_fills ++ row ∷ [] })

  unfoldable pub insert_position : Database E → PaperPosition E → Database E
  insert_position db row = record db { paper_positions = db.paper_positions ++ row ∷ [] }

  unfoldable pub insert_report : Database E → PaperSessionReport E → Database E
  insert_report db row = record db { paper_reports = db.paper_reports ++ row ∷ [] }

  abbrev pub next_session_id : Database E → ℕ
  next_session_id db = new_id (map (λ row. row.id) db.paper_sessions)

  abbrev pub next_fill_id : Database E → ℕ
  next_fill_id db = new_id (map (λ row. row.id) db.paper_fills)

  abbrev pub next_position_id : Database E → ℕ
  next_position_id db = new_id (map (λ row. row.id) db.paper_positions)

  abbrev pub next_report_id : Database E → ℕ
  next_report_id db = new_id (map (λ row. row.id) db.paper_reports)
