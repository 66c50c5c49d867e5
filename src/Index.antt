-- ===== src/Index.antt =====
-- crates/vex-core/src/index.rs: what a search returns, and the filter test that every index makes.
use vexdb.Prelude.{Bool, true, Option, none, some}
use vexdb.Platform.{Platform}
use vexdb.Error.{VectorId}
use vexdb.Payload.{Filter, matches}

pub record SearchResult ⦃p : Platform⦄ : Type 0 where
  pub id : VectorId
  pub distance : p.F32

module _ ⦃p : Platform⦄ where
  -- `filter.is_none_or(|f| f.matches(payload))`
  abbrev pub selects : Option Filter → Option p.Value → Bool
  selects none payload = true
  selects (some f) payload = matches f payload
