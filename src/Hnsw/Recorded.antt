-- ===== src/Hnsw/Recorded.antt =====
-- What a recording sink has after a search: nodes of the arena, which `to_trace` can name.
use vexdb.Prelude.{
  ℕ, zero, suc, ◌+◌, ◌<◌, Bool, false, ◌&&◌, ◌||◌, some, List, [], ◌∷◌, ◌≡◌, length, get_elem?,
  replicate, leb, ltb, All, All-append, Bool-cases, Option-cases, inl, inr,
}
use vexdb.Platform.{Platform}
use vexdb.Error.{Outcome, expect}
use vexdb.Error.Yield.{expect_ok-Keeps, Yields, Any, >>=-Yields, expect-Yields}
use vexdb.Collections.Vec.{lt_of_get_elem?}
use vexdb.Distance.Metric.{distance}
use vexdb.Hnsw.{HnswIndex, Candidate, node_at, neighbors_at, dist_to_node}
use vexdb.Hnsw.Trace.{
  RecordingSink, DescentHop, BeamEdge, BeamStatus, recording_sink, recording_start,
}
use vexdb.Hnsw.Greedy.{Climb, climb_round, climb, greedy_closest}
use vexdb.Hnsw.Layer.{Beam, visit, worst_of, evaluate, expand, beam_loop, search_layer}
use vexdb.Hnsw.Search.{descend}

module _ ⦃p : Platform⦄ where
  open p use {F32, lt_f}

  module _ (idx : HnswIndex) where
    abbrev pub Inside : ℕ → Type 0
    Inside n = n < length idx.nodes

    -- The nodes that the recording names are in the arena.
    pub record IsRecorded (s : RecordingSink) : Type 0 where
      pub entered : (n : ℕ) (d : F32) → s.entry ≡ some (n, d) → Inside n
      pub hops : All {A = DescentHop ℕ} (λ h. Inside h.from × Inside h.to) s.descent
      pub edges : All {A = BeamEdge ℕ} (λ e. Inside e.from × Inside e.to) s.beam

    pub start-IsRecorded : IsRecorded recording_start
    start-IsRecorded = record { entered = λ n d e. cc; hops = tt; edges = tt }

    pub entry-IsRecorded :
        (n : ℕ) (d : F32) (s : RecordingSink)
        → Inside n
        → IsRecorded s
        → IsRecorded (recording_sink.entry n d s)
    entry-IsRecorded n d s inside r = record {
      entered = λ m d' e. let same : n ≡ m = cc in rw same at inside;
      hops = r.hops;
      edges = r.edges;
    }

    pub eval-IsRecorded :
        (s : RecordingSink) → IsRecorded s → IsRecorded (recording_sink.distance_eval s)
    eval-IsRecorded s r = record { entered = r.entered; hops = r.hops; edges = r.edges }

    hop-IsRecorded :
        (layer from to : ℕ) (d : F32) (s : RecordingSink)
        → Inside from
        → Inside to
        → IsRecorded s
        → IsRecorded (recording_sink.descent_hop layer from to d s)
    hop-IsRecorded layer from to d s left right r = record {
      entered = r.entered;
      hops = All-append _ s.descent _ r.hops ((left, right), tt);
      edges = r.edges;
    }

    edge-IsRecorded :
        (from to : ℕ) (d : F32) (status : BeamStatus) (s : RecordingSink)
        → Inside from
        → Inside to
        → IsRecorded s
        → IsRecorded (recording_sink.beam_edge from to d status s)
    edge-IsRecorded from to d status s left right r = record {
      entered = r.entered;
      hops = r.hops;
      edges = All-append _ s.beam _ r.edges ((left, right), tt);
    }

    node_at-Inside : (n : ℕ) → Yields (λ _. Inside n) (node_at idx n)
    unfolding node_at
    node_at-Inside n = elim (Option-cases (get_elem? idx.nodes n)) [
      | inl out ↦ rw out tt
      | inr (node, at) ↦ rw at (lt_of_get_elem? idx.nodes n at)
    ]

    neighbors_at-Inside : (n layer : ℕ) → Yields (λ _. Inside n) (neighbors_at idx n layer)
    unfolding neighbors_at
    neighbors_at-Inside n layer =
        >>=-Yields (λ _. Inside n) (λ _. Inside n) (node_at idx n) _ (node_at-Inside n)
          λ node inside. elim (Option-cases (get_elem? node.neighbors layer)) [
            | inl out ↦ rw out tt
            | inr (list, at) ↦ rw at inside
          ]

    pub dist_to_node-Inside :
        (query : List F32) (n : ℕ) → Yields (λ _. Inside n) (dist_to_node idx query n)
    unfolding dist_to_node
    dist_to_node-Inside query n =
        >>=-Yields (λ _. Inside n) (λ _. Inside n) (node_at idx n) _ (node_at-Inside n)
          λ node inside. expect_ok-Keeps (distance idx.metric query node.vector.values) inside

    module _ (query : List F32) where
      abbrev Climbed : Climb × RecordingSink → Type 0
      Climbed (c, s) = Inside c.ep × IsRecorded s

      climb_round-IsRecorded :
          (layer : ℕ) (nbs : List ℕ) (c : Climb) (s : RecordingSink)
          → Inside c.ep
          → IsRecorded s
          → Yields Climbed (climb_round recording_sink idx query layer nbs c s)
      unfolding climb_round
      climb_round-IsRecorded layer [] c s inside r = (inside, r)
      climb_round-IsRecorded layer (nb ∷ nbs) c s inside r =
          >>=-Yields (λ _. Inside nb) Climbed (dist_to_node idx query nb) _
            (dist_to_node-Inside query nb)
            λ d there. elim (Bool-cases (lt_f d c.ep_dist)) [
              | inl h ↦ rw h (
                  climb_round-IsRecorded layer nbs _ _ there
                    (hop-IsRecorded layer c.ep nb d _ inside there (eval-IsRecorded s r)))
              | inr h ↦ rw h (climb_round-IsRecorded layer nbs c _ inside (eval-IsRecorded s r))
            ]

      abbrev pub Ended : (ℕ × F32) × RecordingSink → Type 0
      Ended (at, s) = IsRecorded s

      climb-IsRecorded :
          (rounds layer ep : ℕ) (ep_dist : F32) (s : RecordingSink)
          → IsRecorded s
          → Yields Ended (climb recording_sink rounds idx query layer ep ep_dist s)
      unfolding climb
      climb-IsRecorded zero layer ep ep_dist s r = tt
      climb-IsRecorded (suc rounds) layer ep ep_dist s r =
          >>=-Yields (λ _. Inside ep) Ended (neighbors_at idx ep layer) _
            (neighbors_at-Inside ep layer)
            λ nbs inside.
              >>=-Yields Climbed Ended (climb_round recording_sink idx query layer nbs _ s) _
                (climb_round-IsRecorded layer nbs _ s inside r)
                λ (c, s') (_, r'). elim (Bool-cases c.improved) [
                  | inl h ↦ rw h (climb-IsRecorded rounds layer c.ep c.ep_dist s' r')
                  | inr h ↦ rw h r'
                ]

      pub descend-IsRecorded :
          (low count : ℕ) (at : ℕ × F32) (s : RecordingSink)
          → IsRecorded s
          → Yields Ended (descend recording_sink idx query low count at s)
      unfolding descend greedy_closest
      descend-IsRecorded low zero at s r = r
      descend-IsRecorded low (suc count) (ep, ep_dist) s r =
          >>=-Yields Ended Ended
            (greedy_closest recording_sink idx query ep ep_dist (low + count) s) _
            (climb-IsRecorded (suc (length idx.nodes)) (low + count) ep ep_dist s r)
            λ (at', s') r'. descend-IsRecorded low count at' s' r'

      module _ (admit : ℕ → Outcome Bool) (admit-Yields : (n : ℕ) → Yields Any (admit n)) where
        abbrev Beamed : Beam × RecordingSink → Type 0
        Beamed (b, s) = IsRecorded s

        evaluate-IsRecorded :
            (ef from nb : ℕ) (d : F32) (b : Beam) (s : RecordingSink)
            → Inside from
            → Inside nb
            → IsRecorded s
            → Yields Beamed (evaluate recording_sink ef admit from nb d b s)
        unfolding evaluate
        evaluate-IsRecorded ef from nb d b s left right r =
            let made = λ (status : BeamStatus). edge-IsRecorded from nb d status s left right r in
            elim (Bool-cases (ltb (length b.best) ef || lt_f d (worst_of b.best))) [
              | inl h ↦ rw h (
                  >>=-Yields Any Beamed (admit nb) _ (admit-Yields nb) λ ad _.
                    elim (Bool-cases ad) [
                      | inl e ↦ rw e (made BeamStatus.admitted)
                      | inr e ↦ rw e (made BeamStatus.routed)
                    ])
              | inr h ↦ rw h (made BeamStatus.rejected)
            ]

        expand-IsRecorded :
            (ef from : ℕ) (nbs : List ℕ) (b : Beam) (s : RecordingSink)
            → Inside from
            → IsRecorded s
            → Yields Beamed (expand recording_sink idx query ef admit from nbs b s)
        unfolding expand
        expand-IsRecorded ef from [] b s inside r = r
        expand-IsRecorded ef from (nb ∷ nbs) b s inside r =
            >>=-Yields Any Beamed (expect (get_elem? b.visited nb)) _
              (expect-Yields (get_elem? b.visited nb))
              λ seen _. elim (Bool-cases seen) [
                | inl h ↦ rw h (expand-IsRecorded ef from nbs b s inside r)
                | inr h ↦ rw h (
                    >>=-Yields (λ _. Inside nb) Beamed (dist_to_node idx query nb) _
                      (dist_to_node-Inside query nb)
                      λ d there.
                        >>=-Yields Beamed Beamed
                          (evaluate recording_sink ef admit from nb d (visit b nb)
                            (recording_sink.distance_eval s))
                          _
                          (evaluate-IsRecorded ef from nb d _ _ inside there (eval-IsRecorded s r))
                          λ (b', s') r'. expand-IsRecorded ef from nbs b' s' inside r')
              ]

        beam_loop-IsRecorded :
            (rounds ef layer : ℕ) (frontier : List Candidate) (b : Beam) (s : RecordingSink)
            → IsRecorded s
            → Yields Beamed (beam_loop recording_sink rounds idx query ef layer admit frontier b s)
        unfolding beam_loop
        beam_loop-IsRecorded rounds ef layer [] b s r = r
        beam_loop-IsRecorded zero ef layer (current ∷ frontier) b s r = tt
        beam_loop-IsRecorded (suc rounds) ef layer (current ∷ frontier) b s r =
            elim (Bool-cases (leb ef (length b.best) && lt_f (worst_of b.best) current.distance)) [
              | inl h ↦ rw (h, beam_loop) r
              | inr h ↦
                  rw (h, beam_loop)
                    (>>=-Yields (λ _. Inside current.node) Beamed
                      (neighbors_at idx current.node layer) _
                      (neighbors_at-Inside current.node layer)
                      λ nbs inside.
                        >>=-Yields Beamed Beamed
                          (expand recording_sink idx query ef admit current.node nbs
                            (record b { frontier = frontier }) s)
                          _ (expand-IsRecorded ef current.node nbs _ s inside r)
                          λ (b', s') r'. beam_loop-IsRecorded rounds ef layer b'.frontier b' s' r')
            ]

        abbrev pub Found : List Candidate × RecordingSink → Type 0
        Found (cs, s) = IsRecorded s

        pub search_layer-IsRecorded :
            (start : Candidate) (ef layer : ℕ) (s : RecordingSink)
            → IsRecorded s
            → Yields Found (search_layer recording_sink idx query start ef layer admit s)
        unfolding search_layer
        search_layer-IsRecorded start ef layer s r =
            let fresh = replicate (length idx.nodes) false in
            >>=-Yields Any Found (expect (get_elem? fresh start.node)) _
              (expect-Yields (get_elem? fresh start.node))
              λ _ _. >>=-Yields Any Found (admit start.node) _ (admit-Yields start.node) λ ad _.
                >>=-Yields Beamed Found
                  (beam_loop recording_sink (suc (length idx.nodes)) idx query ef layer admit
                    (start ∷ []) _ s)
                  _ (beam_loop-IsRecorded (suc (length idx.nodes)) ef layer (start ∷ []) _ s r)
                  λ (b', s') r'. r'
