-- ===== src/Hnsw/Greedy.antt =====
-- `HnswIndex::greedy_closest`: hill climbing on one layer.
use vexdb.Prelude.{ℕ, zero, suc, Bool, true, false, List, [], ◌∷◌, length}
use vexdb.Platform.{Platform}
use vexdb.Error.{Outcome, ok, stuck, ◌>>=◌}
use vexdb.Hnsw.{HnswIndex, dist_to_node, neighbors_at}
use vexdb.Hnsw.Trace.{TraceSink}

-- Where the climb stands, and whether this round moved it.
pub record Climb ⦃p : Platform⦄ : Type 0 where
  pub ep : ℕ
  pub ep_dist : p.F32
  pub improved : Bool

module _ ⦃p : Platform⦄ {S : Type 0} (sink : TraceSink S) where
  open p use {F32, lt_f}

  -- The loop over the neighbours of the node where the round began.
  unfoldable pub climb_round : HnswIndex → List F32 → ℕ → List ℕ → Climb → S → Outcome (Climb × S)
  climb_round idx query layer [] c s = ok (c, s)
  climb_round idx query layer (nb ∷ nbs) c s = do
    d ← dist_to_node idx query nb
    let s' = sink.distance_eval s
    elim (lt_f d c.ep_dist) [
      | true ↦
          climb_round idx query layer nbs (record { ep = nb; ep_dist = d; improved = true })
            (sink.descent_hop layer c.ep nb d s')
      | false ↦ climb_round idx query layer nbs c s'
    ]

  -- The rounds, until one improves nothing.
  unfoldable pub climb : ℕ → HnswIndex → List F32 → ℕ → ℕ → F32 → S → Outcome ((ℕ × F32) × S)
  climb zero idx query layer ep ep_dist s = stuck
  climb (suc rounds) idx query layer ep ep_dist s = do
    nbs ← neighbors_at idx ep layer
    (c, s') ←
        climb_round idx query layer nbs (record { ep = ep; ep_dist = ep_dist; improved = false }) s
    elim c.improved [
      | true ↦ climb rounds idx query layer c.ep c.ep_dist s'
      | false ↦ ok ((c.ep, c.ep_dist), s')
    ]

  -- Each round but the last moves to a closer node, so one round per node and one more are enough.
  unfoldable pub greedy_closest : HnswIndex → List F32 → ℕ → F32 → ℕ → S → Outcome ((ℕ × F32) × S)
  greedy_closest idx query ep ep_dist layer s =
      climb (suc (length idx.nodes)) idx query layer ep ep_dist s
