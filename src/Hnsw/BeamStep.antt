-- ===== src/Hnsw/BeamStep.antt =====
-- The steps of `search_layer`: a node is evaluated, and one is expanded.
use vexdb.Prelude.{
  ℕ, ◌≤◌, ◌<◌, Bool, true, false, some, List, [], ◌∷◌, ◌≡◌, refl, arith, length, get_elem?, set,
  ltb, All, All-imp, Bool-cases, inl, inr, length-set, get_elem?-set_self, ◌||◌,
}
use vexdb.Platform.{Platform}
use vexdb.Platform.Laws.{FloatOrder}
use vexdb.Error.{Outcome, ok, ◌>>=◌}
use vexdb.Collections.Heap.{push}
use vexdb.Collections.Heap.Sorted.{All-push, length-push}
use vexdb.Hnsw.{HnswIndex, Candidate, cmp_candidate}
use vexdb.Hnsw.Trace.{TraceSink, admitted, routed, rejected}
use vexdb.Hnsw.Layer.{Beam, worst_of, visit, admit_best, evaluate, expand}
use vexdb.Hnsw.Graph.{HasLayer, IsSized, IsLinked, Stands, far, dist_to_node-far, HasLayer-lt}
use vexdb.Collections.Vec.{lt_of_get_elem?, get_elem?_of_lt}
use vexdb.Hnsw.Cover.{IsSeen, IsCovered, routed-IsCovered, admitted-IsCovered, rejected-IsCovered}
use vexdb.Hnsw.Beam.{
  unseen-set, get_elem?-set-true, Apart, StandsAt, IsAdmitted, IsVisited, IsBeam, work,
  length-admit_best-le, admit_best-AreResults, admit_best-IsVisited,
}

module _ ⦃p : Platform⦄ where
  open p use {F32, lt_f}

  module _ (idx : HnswIndex) (w : IsSized idx) (layer : ℕ) (links : IsLinked idx layer)
      (query : List F32) (fits : length query ≡ idx.dim) (admit : ℕ → Outcome Bool)
      (answers : (n : ℕ) → HasLayer idx layer n → (a : Bool) × (admit n ≡ ok a)) where
    abbrev pub Beams : ℕ → Beam → Type 0
    Beams = IsBeam idx layer query admit

    abbrev pub rounds_left : Beam → ℕ
    rounds_left = work idx layer query admit

    -- What is visited next is none of the results.
    unmarked :
        (visited : List Bool) (c : Candidate) (best : List Candidate)
        → get_elem? visited c.node ≡ some false
        → All (IsVisited idx layer query admit visited) best
        → All (Apart c) best
    unmarked visited c best flag marked =
        All-imp
          (λ x seen same. let again : get_elem? visited c.node ≡ some true = rw same seen in cc)
          best marked

    visit-IsBeam :
        (ef : ℕ) (b : Beam) (nb : ℕ)
        → get_elem? b.visited nb ≡ some false
        → Beams ef b
        → Beams ef (visit b nb)
    visit-IsBeam ef b nb flag h = record {
      flags = omega (arith, length-set b.visited nb true, h.flags);
      front = h.front;
      results = h.results;
      marked = All-imp (λ c seen. get_elem?-set-true b.visited c.node nb seen) b.best h.marked;
      counted = omega (arith, unseen-set b.visited nb flag, h.counted);
    }

    module _ (floats : FloatOrder p) (ef : ℕ) {S : Type 0} (sink : TraceSink S) where
      -- The beam with a candidate on its frontier, and among its results if it is admitted.
      abbrev routed_to : Beam → Candidate → Beam
      routed_to b c = record (visit b c.node) { frontier = push cmp_candidate c b.frontier }

      abbrev admitted_to : Beam → Candidate → Beam
      admitted_to b c = record (routed_to b c) { best = admit_best ef b.best c }

      routed_to-IsBeam :
          (b : Beam) (c : Candidate)
          → StandsAt idx layer query admit c
          → get_elem? b.visited c.node ≡ some false
          → Beams ef b
          → Beams ef (routed_to b c)
      routed_to-IsBeam b c stands flag h =
          let v = visit-IsBeam ef b c.node flag h in
          record {
            flags = v.flags;
            front =
                All-push cmp_candidate (StandsAt idx layer query admit) c b.frontier stands v.front;
            results = v.results;
            marked = v.marked;
            counted = v.counted;
          }

      admitted_to-IsBeam :
          (b : Beam) (c : Candidate)
          → IsAdmitted idx layer query admit c
          → get_elem? b.visited c.node ≡ some false
          → c.node < length b.visited
          → Beams ef b
          → Beams ef (admitted_to b c)
      admitted_to-IsBeam b c good flag inside h =
          let r = routed_to-IsBeam b c good.0 flag h in
          let new = unmarked b.visited c b.best flag h.marked in
          record {
            flags = r.flags;
            front = r.front;
            results =
                admit_best-AreResults idx layer query admit floats ef b.best c good new h.results;
            marked =
                admit_best-IsVisited idx layer query admit floats ef (set b.visited c.node true)
                  b.best c h.results.bounded (get_elem?-set_self b.visited c.node true inside)
                  r.marked;
            counted = omega (
              arith,
              unseen-set b.visited c.node flag,
              length-admit_best-le idx layer query admit floats ef b.best c h.results.bounded,
              h.counted,
            );
          }

      -- How a beam goes on: it is kept, has no more work, forgets no visit, and stays covered.
      pub record Advance (b b' : Beam) : Type 1 where
        pub kept : Beams ef b'
        pub less : rounds_left b' ≤ rounds_left b
        pub seen : (n : ℕ) → IsSeen b.visited n → IsSeen b'.visited n
        pub covered :
            (open_at : ℕ → Type 0)
            → IsCovered idx layer admit ef open_at b
            → IsCovered idx layer admit ef open_at b'

      Advance-trans : (a b c : Beam) → Advance a b → Advance b c → Advance a c
      Advance-trans a b c g h = record {
        kept = h.kept;
        less = omega (arith, g.less, h.less);
        seen = λ n before. h.seen n (g.seen n before);
        covered = λ open_at before. h.covered open_at (g.covered open_at before);
      }

      no_room :
          (best : List Candidate) (d : F32)
          → ltb (length best) ef || lt_f d (worst_of best) ≡ false
          → ef ≤ length best
      no_room best d h = ground arith

      -- Evaluating a node that is not visited returns: the beam goes on, and the node is visited.
      evaluate-ok :
          (from nb : ℕ) (d : F32) (b : Beam) (s : S)
          → Stands idx layer query nb d
          → get_elem? b.visited nb ≡ some false
          → Beams ef b
          → (b' : Beam) × (s' : S) × (evaluate sink ef admit from nb d (visit b nb) s ≡ ok (b', s'))
            × Advance b b'
            × IsSeen b'.visited nb
      unfolding evaluate
      evaluate-ok from nb d b s stands flag h =
          let c : Candidate = record { distance = d; node = nb } in
          let (a, answer) = answers nb stands.there in
          let inside : nb < length b.visited = lt_of_get_elem? b.visited nb flag in
          let fewer = unseen-set b.visited nb flag in
          let longer = length-push cmp_candidate c b.frontier in
          let stays : (n : ℕ) → IsSeen b.visited n → IsSeen (set b.visited nb true) n =
            λ n before. get_elem?-set-true b.visited n nb before in
          let now = get_elem?-set_self b.visited nb true inside in
          elim (Bool-cases (ltb (length b.best) ef || lt_f d (worst_of b.best))) [
            | inl t ↦ elim (Bool-cases a) [
              | inl yes_a ↦ (
                admitted_to b c,
                sink.beam_edge from nb d admitted s,
                simp (evaluate, t, answer, yes_a, ◌>>=◌),
                record {
                  kept = admitted_to-IsBeam b c (stands, rw (← yes_a) answer) flag inside h;
                  less = omega (arith, fewer, longer);
                  seen = stays;
                  covered = λ open_at before.
                      admitted-IsCovered idx layer admit ef open_at b c before h.results.bounded;
                },
                now,
              )
              | inr no_a ↦ (
                routed_to b c,
                sink.beam_edge from nb d routed s,
                simp (evaluate, t, answer, no_a, ◌>>=◌),
                record {
                  kept = routed_to-IsBeam b c stands flag h;
                  less = omega (arith, fewer, longer);
                  seen = stays;
                  covered = λ open_at before.
                      routed-IsCovered idx layer admit ef open_at b c before (rw (← no_a) answer);
                },
                now,
              )
            ]
            | inr t ↦ (
              visit b nb,
              sink.beam_edge from nb d rejected s,
              simp (evaluate, t),
              record {
                kept = visit-IsBeam ef b nb flag h;
                less = omega (arith, fewer);
                seen = stays;
                covered = λ open_at before.
                    rejected-IsCovered idx layer admit ef open_at b c before (no_room b.best d t);
              },
              now,
            )
          ]

      -- Expanding a node whose neighbours are on the layer returns: the beam goes on, and they are
      -- visited.
      pub expand-ok :
          (from : ℕ) (nbs : List ℕ) (b : Beam) (s : S)
          → All (HasLayer idx layer) nbs
          → Beams ef b
          → (b' : Beam) × (s' : S) × (expand sink idx query ef admit from nbs b s ≡ ok (b', s'))
            × Advance b b'
            × All (IsSeen b'.visited) nbs
      unfolding expand
      expand-ok from [] b s known h = (
        b,
        s,
        refl,
        record {
          kept = h;
          less = omega arith;
          seen = λ n before. before;
          covered = λ open_at before. before;
        },
        tt,
      )
      expand-ok from (nb ∷ nbs) b s known h =
          let inside : nb < length b.visited = omega (arith, HasLayer-lt idx nb known.0, h.flags) in
          let (seen, at) = get_elem?_of_lt b.visited nb inside in
          elim (Bool-cases seen) [
            | inl t ↦
                let (b', s', run, on, rest) = expand-ok from nbs b s known.1 h in
                (b', s', simp (expand, at, t, run), on, (on.seen nb (rw (← t) at), rest))
            | inr t ↦
                let d = far idx.metric query known.0.node in
                let measured = dist_to_node-far idx w query fits nb known.0.node known.0.at in
                let (b₁, s₁, run₁, on₁, now) =
                  evaluate-ok from nb d b (sink.distance_eval s)
                    (record { there = known.0; measured = refl }) (rw (← t) at) h in
                let (b', s', run, on, rest) = expand-ok from nbs b₁ s₁ known.1 on₁.kept in
                (
                  b',
                  s',
                  simp (expand, at, t, measured, run₁, run, ◌>>=◌),
                  Advance-trans b b₁ b' on₁ on,
                  (on.seen nb now, rest),
                )
          ]
