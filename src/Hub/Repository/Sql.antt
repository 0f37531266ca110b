-- ===== src/Hub/Repository/Sql.antt =====
-- The database under api/hub/repository.py, where its answers depend on how it was set up: how it prints a
-- JSON value that is no text, its order of texts, and how it lowers a character for ILIKE.
use homtech_hub.Prelude.{ℕ, Text, Bool, Json}

pub record Sql : Type 0 where
  pub json_text : Json → Text
  pub collate : Text → Text → Bool
  pub fold : ℕ → ℕ
