-- ===== src/Paper/Inserts.antt =====
-- settlement/paper.py: what a completed insert leaves.
use defi_engine.Base.{◌≡◌, false, not, [], ◌∷◌, ◌++◌}
use defi_engine.Env.{Env}
use defi_engine.Truth.{Database, return, PaperSession, PaperFill}
use defi_engine.Truth.Returns.{then-returns, raise_if-returns}
use defi_engine.Paper.Store.{insert_session, insert_fill, session_key_taken, foreign_keys_hold}

module _ (E : Env) where
  pub insert_session-returns :
      (db db' : Database E) (row : PaperSession E)
      → insert_session E db row ≡ return db'
      → (session_key_taken E db row.session_key ≡ false)
        × (db' ≡ record db { paper_sessions = db.paper_sessions ++ row ∷ [] })
  unfolding insert_session
  insert_session-returns db db' row h =
      let (fresh, h₁) = then-returns _ _ _ h in (raise_if-returns _ _ fresh, cc)

  pub insert_fill-returns :
      (db db' : Database E) (row : PaperFill E)
      → insert_fill E db row ≡ return db'
      → (not (foreign_keys_hold E db row) ≡ false)
        × (db' ≡ record db { paper_fills = db.paper_fills ++ row ∷ [] })
  unfolding insert_fill
  insert_fill-returns db db' row h =
      let (holds, h₁) = then-returns _ _ _ h in (raise_if-returns _ _ holds, cc)
