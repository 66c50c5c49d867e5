-- ===== src/Tests/Search.antt =====
-- The searches of the small graph index.
use vexdb.Prelude.{
  false, ◌⊎◌, ◌%◌, ◌+◌, ℕ, zero, suc, ◌≤◌, ◌<◌, Bool, true, All, none, some, List, [], ◌∷◌, ◌≡◌,
  refl, arith, length, get_elem?,
}
use vexdb.Error.{panic, Outcome, ok}
use vexdb.Index.{SearchResult}
use vexdb.Hnsw.{has_room, Node, Candidate, node_at, neighbors_at}
use vexdb.Hnsw.Trace.{RecordingSink, recording_sink, recording_start}
use vexdb.Hnsw.Layer.{search_layer}
use vexdb.Hnsw.Search.{search_inner, search_exact}
use vexdb.Hnsw.Graph.{HasLayer, IsLinked, IsGraph, Reaches}
use vexdb.Hnsw.Graph.Reaches.{here, along}
use vexdb.Hnsw.Beam.{AreResults}
use vexdb.Hnsw.BeamRun.{search_layer-ok}
use vexdb.Hnsw.Cover.{Listed}
use vexdb.Hnsw.Answer.{IsAnswer, IsNearest, IsConnected}
use vexdb.Hnsw.SearchRun.{search_inner-ok, search_inner-IsNearest}
use vexdb.Hnsw.Exact.{search_exact-IsNearest}
use vexdb.Persist.Any.{hnsw, search_opts}
use vexdb.Persist.Queries.{refusal, Refuses, search_opts-Refuses}
use vexdb.Tests.Numbers.{numbers, numbers-FloatOrder}
use vexdb.Tests.Graph.{pair, first_far, on_layer, pair-Stands, pair-IsSized, pair-IsLinked}

upper-IsLinked : (layer : ℕ) → IsLinked pair (suc layer)
upper-IsLinked layer = record { linked = no_links }
  where
    no_links :
        (n : ℕ) (node : Node) (list : List ℕ)
        → get_elem? pair.nodes n ≡ some node
        → get_elem? node.neighbors (suc layer) ≡ some list
        → All (HasLayer pair (suc layer)) list
    no_links zero node list at listed = absurd (ground (arith, at, listed))
    no_links (suc zero) node list at listed = absurd (ground (arith, at, listed))
    no_links (suc (suc n)) node list at listed = cc

pair_links : (layer : ℕ) → IsLinked pair layer
pair_links zero = pair-IsLinked
pair_links (suc layer) = upper-IsLinked layer

pub pair-IsGraph : IsGraph pair
pair-IsGraph = record {
  vectors = pair-IsSized;
  links = pair_links;
  entry = λ ep layer at low.
      let first : 0 ≡ ep = cc in
      let lowest : layer ≡ 0 = omega arith in rw lowest (rw (← first) (on_layer 0 (omega arith)));
}

based : (n : ℕ) (node : Node) → get_elem? pair.nodes n ≡ some node → HasLayer pair 0 n
based zero node at = on_layer 0 (omega arith)
based (suc zero) node at = on_layer 1 (omega arith)
based (suc (suc n)) node at = cc

reached : (a b : ℕ) → HasLayer pair 0 a → HasLayer pair 0 b → Reaches pair 0 a b
unfolding neighbors_at node_at
reached zero zero h k = here
reached zero (suc zero) h k = along (1 ∷ []) 0 here refl refl
reached (suc zero) zero h k = along (0 ∷ []) 0 here refl refl
reached (suc zero) (suc zero) h k = here
reached (suc (suc a)) b h k = let at = h.at in cc
reached zero (suc (suc b)) h k = let at = k.at in cc
reached (suc zero) (suc (suc b)) h k = let at = k.at in cc

pair-IsConnected : IsConnected pair
pair-IsConnected = record {
  based = based;
  reached = reached;
  entered = λ n node at live. (0, refl);
  counted = λ n node at live. omega arith;
}

search_inner-ok_example :
    (results : List SearchResult) × (s : RecordingSink) × (search_inner recording_sink pair
        (6 ∷ [])
        2
        1
        none
        recording_start
      ≡ ok (results, s))
    × IsAnswer pair (6 ∷ []) 2 none results
search_inner-ok_example =
    search_inner-ok numbers-FloatOrder pair pair-IsGraph (6 ∷ []) refl recording_sink 2 1 none
      recording_start (omega arith)

search_inner-IsNearest_example :
    (results : List SearchResult) × (s : RecordingSink) × (search_inner recording_sink pair
        (6 ∷ [])
        1
        3
        none
        recording_start
      ≡ ok (results, s))
    × IsNearest pair (6 ∷ []) 1 none results
search_inner-IsNearest_example =
    search_inner-IsNearest numbers-FloatOrder pair pair-IsGraph (6 ∷ []) refl recording_sink 1 3
      none recording_start (omega arith) pair-IsConnected (omega arith)

search_exact-IsNearest_example :
    ((has_room ((1 + 1) % (numbers.usize_max + 1)) ≡ false)
      × (search_exact pair (6 ∷ []) 1 none ≡ panic))
    ⊎ ((results : List SearchResult) × (search_exact pair (6 ∷ []) 1 none ≡ ok results)
        × IsNearest pair (6 ∷ []) 1 none results)
search_exact-IsNearest_example =
    search_exact-IsNearest numbers-FloatOrder pair pair-IsSized (6 ∷ []) refl none 1 (omega arith)

search_opts-Refuses_example :
    Refuses (refusal 1 0 1) (search_opts (hnsw pair) (6 ∷ []) 0 (some 4) none)
search_opts-Refuses_example =
    search_opts-Refuses numbers-FloatOrder (hnsw pair) pair-IsGraph (6 ∷ []) 0 (some 4) none

abbrev always : ℕ → Outcome Bool
always n = ok true

abbrev start : Candidate
start = record { distance = first_far; node = 0 }

search_layer-ok_example :
    (found : List Candidate) × (s : RecordingSink) × (search_layer recording_sink pair
        (6 ∷ [])
        start
        3
        0
        always
        recording_start
      ≡ ok (found, s))
    × AreResults pair 0 (6 ∷ []) always 3 found
    × (length found ≤ 2)
    × (length found < 3 → (n : ℕ) → Reaches pair 0 0 n → always n ≡ ok true → Listed n found)
search_layer-ok_example =
    search_layer-ok pair pair-IsSized 0 pair-IsLinked (6 ∷ []) refl always (λ n h. (true, refl))
      numbers-FloatOrder 3 recording_sink start recording_start pair-Stands (omega arith)
