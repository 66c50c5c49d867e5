-- ===== src/Hnsw/Trace.antt =====
-- The observer of a search (`trait TraceSink`), its silent and its recording implementation, and
-- the record that `search_traced` makes of them.
use vexdb.Prelude.{ℕ, ◌+◌, Option, none, some, List, [], ◌∷◌, ◌++◌}
use vexdb.Platform.{Platform}
use vexdb.Error.{VectorId}

pub data BeamStatus : Type 0 where
  admitted routed rejected : BeamStatus

-- The methods take the sink's state and return it.
pub record TraceSink ⦃p : Platform⦄ (S : Type 0) : Type 0 where
  pub entry : ℕ → p.F32 → S → S
  pub descent_hop : ℕ → ℕ → ℕ → p.F32 → S → S
  pub beam_edge : ℕ → ℕ → p.F32 → BeamStatus → S → S
  pub distance_eval : S → S

pub record DescentHop ⦃p : Platform⦄ (N : Type 0) : Type 0 where
  pub layer : ℕ
  pub from : N
  pub to : N
  pub distance : p.F32

pub record BeamEdge ⦃p : Platform⦄ (N : Type 0) : Type 0 where
  pub from : N
  pub to : N
  pub distance : p.F32
  pub status : BeamStatus

-- Arena positions, in the order of the calls.
pub record RecordingSink ⦃p : Platform⦄ : Type 0 where
  pub entry : Option (ℕ × p.F32)
  pub descent : List (DescentHop ℕ)
  pub beam : List (BeamEdge ℕ)
  pub distance_evals : ℕ

-- The result of `search_traced`: ids in place of positions.
pub record SearchTrace ⦃p : Platform⦄ : Type 0 where
  pub entry_id : Option VectorId
  pub entry_distance : Option p.F32
  pub max_layer : ℕ
  pub descent : List (DescentHop VectorId)
  pub beam : List (BeamEdge VectorId)
  pub visited : ℕ
  pub distance_evals : ℕ

module _ ⦃p : Platform⦄ where
  abbrev pub noop_sink : TraceSink (Unit {0})
  noop_sink = record {
    entry = λ pos d s. s;
    descent_hop = λ layer from to d s. s;
    beam_edge = λ from to d status s. s;
    distance_eval = λ s. s;
  }

  abbrev pub recording_start : RecordingSink
  recording_start = record { entry = none; descent = []; beam = []; distance_evals = 0 }

  abbrev pub recording_sink : TraceSink RecordingSink
  recording_sink = record {
    entry = λ pos d s. record s { entry = some (pos, d) };
    descent_hop = λ layer from to d s. record s {
      descent = s.descent ++ (record { layer = layer; from = from; to = to; distance = d } ∷ []);
    };
    beam_edge = λ from to d status s. record s {
      beam = s.beam ++ (record { from = from; to = to; distance = d; status = status } ∷ []);
    };
    distance_eval = λ s. record s { distance_evals = s.distance_evals + 1 };
  }
