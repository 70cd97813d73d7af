-- ===== src/Research/Proposals.antt =====
-- storage/truth/models.py: proposals and reviews; and research_loop/proposal_review.py: what a
-- review reads of the source of a proposal.
use defi_engine.Base.{ℕ, String, List, Option}
use defi_engine.Base.Time.{Instant}
use defi_engine.Json.{Json, Fields}
use defi_engine.Env.{Env}

module _ (E : Env) where
  open E use {Float, Encoded}

  pub record ImprovementProposal : Type 0 where
    pub id : ℕ
    pub proposal_id : String
    pub proposal_kind : String
    pub source_owner_type : String
    pub source_owner_key : String
    pub governance_scope : String
    pub status : String
    pub runtime_effect : String
    pub title : String
    pub summary : String
    pub hypothesis : String
    pub next_test : String
    pub metrics_json : Encoded
    pub reason_codes_json : Encoded
    pub created_at : Instant

  pub record ProposalReview : Type 0 where
    pub id : ℕ
    pub review_id : String
    pub proposal_id : String
    pub decision : String
    pub reviewer_kind : String
    pub summary : String
    pub reason_codes_json : Encoded
    pub regime_scope_json : Encoded
    pub condition_scope_json : Encoded
    pub recommended_next_test : String
    pub created_at : Instant

  pub record ResearchTables : Type 0 where
    pub proposals : List ImprovementProposal
    pub reviews : List ProposalReview

  -- The context that `_build_source_context` collects, in the parts that a review reads.
  pub record SourceContext : Type 0 where
    pub source_metrics : Fields Float
    pub source_status : String
    pub source_artifact_payload : Fields Float
    pub source_artifact_types : List String
    pub source_artifact_path : String
    pub semantic_regime : Option String
    pub condition_run_id : Option String
    pub regime_scope : Json Float
    pub condition_scope : Json Float
