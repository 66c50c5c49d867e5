-- ===== src/Hnsw/BeamRun.antt =====
-- The run of `search_layer`, and its rounds.
use vexdb.Prelude.{
  ℕ, zero, suc, ◌≤◌, ◌<◌, Bool, true, false, some, List, [], ◌∷◌, ◌≡◌, ◌≢◌, refl, arith, length,
  get_elem?, set, replicate, leb, All, Bool-cases, inl, inr, length-set, get_elem?-set_self, ◌&&◌,
  length-replicate, if◌then◌else◌,
}
use vexdb.Platform.{Platform}
use vexdb.Platform.Laws.{FloatOrder}
use vexdb.Error.{Outcome, ok, ◌>>=◌}
use vexdb.Hnsw.{HnswIndex, Candidate}
use vexdb.Hnsw.Trace.{TraceSink}
use vexdb.Hnsw.Layer.{Beam, worst_of, beam_loop, search_layer}
use vexdb.Hnsw.Graph.{Reaches, HasLayer, IsSized, IsLinked, neighbors_at-list, HasLayer-lt}
use vexdb.Hnsw.BeamStep.{expand-ok}
use vexdb.Hnsw.Cover.{
  IsSeen, IsCovered, IsClosed, NoneOpen, Listed, get_elem?-set_cases, popped-IsCovered,
  expanded-IsCovered, full-IsClosed, exhausted-IsClosed, Reaches-IsSeen,
}
use vexdb.Hnsw.Beam.{
  unseen, unseen-set, unseen-replicate, get_elem?-replicate, StandsAt, AreResults, IsBeam, work,
}

full : (ef n : ℕ) (b : Bool) → leb ef n && b ≡ true → ef ≤ n
full ef n b h = ground arith

-- Nothing is visited at first.
get_elem?-replicate_ne : (n i : ℕ) → get_elem? (replicate n false) i ≢ some true
get_elem?-replicate_ne zero i h = cc
get_elem?-replicate_ne (suc n) zero h = cc
get_elem?-replicate_ne (suc n) (suc i) h = get_elem?-replicate_ne n i h

only_start : (size at n : ℕ) → IsSeen (set (replicate size false) at true) n → at ≡ n
only_start size at n seen = elim (get_elem?-set_cases (replicate size false) n at seen) [
  | inl same ↦ same
  | inr before ↦ absurd (get_elem?-replicate_ne size n before)
]

module _ ⦃p : Platform⦄ where
  open p use {F32, lt_f}

  module _ (idx : HnswIndex) (w : IsSized idx) (layer : ℕ) (links : IsLinked idx layer)
      (query : List F32) (fits : length query ≡ idx.dim) (admit : ℕ → Outcome Bool)
      (answers : (n : ℕ) → HasLayer idx layer n → (a : Bool) × (admit n ≡ ok a)) where
    module _ (floats : FloatOrder p) (ef : ℕ) {S : Type 0} (sink : TraceSink S) where
      -- As many rounds as there is work are enough.
      beam_loop-ok :
          (rounds : ℕ) (frontier : List Candidate) (b : Beam) (s : S)
          → b.frontier ≡ frontier
          → IsBeam idx layer query admit ef b
          → IsCovered idx layer admit ef (NoneOpen idx layer admit ef) b
          → work idx layer query admit b ≤ rounds
          → (b' : Beam) × (s' : S) × (beam_loop sink rounds idx query ef layer admit frontier b s
              ≡ ok (b', s'))
            × IsBeam idx layer query admit ef b'
            × IsClosed idx layer admit ef b'
            × ((n : ℕ) → IsSeen b.visited n → IsSeen b'.visited n)
      unfolding beam_loop
      beam_loop-ok rounds [] b s same h cover enough =
          (b, s, refl, h, exhausted-IsClosed idx layer admit ef b same cover, λ n before. before)
      beam_loop-ok zero (current ∷ frontier) b s same h cover enough =
          let size : length b.frontier ≡ suc (length frontier) = rw same refl in
          absurd (omega arith)
      beam_loop-ok (suc rounds) (current ∷ frontier) b s same h cover enough =
          elim (Bool-cases (leb ef (length b.best) && lt_f (worst_of b.best) current.distance)) [
            | inl t ↦ (
              b,
              s,
              simp (beam_loop, t),
              h,
              full-IsClosed idx layer admit ef b (full ef (length b.best) _ t),
              λ n before. before,
            )
            | inr t ↦
                let front : All (StandsAt idx layer query admit) (current ∷ frontier) =
                  rw same at h.front in
                let size : length b.frontier ≡ suc (length frontier) = rw same refl in
                let rest : Beam = record b { frontier = frontier } in
                let rest-IsBeam : IsBeam idx layer query admit ef rest = record {
                  flags = h.flags;
                  front = front.1;
                  results = h.results;
                  marked = h.marked;
                  counted = h.counted;
                } in
                let here = front.0.there in
                let nbs = neighbors_at-list idx current.node here in
                let (b₁, s₁, run₁, on, seen_all) =
                  expand-ok idx w layer links query fits admit answers floats ef sink current.node
                    here.list rest s
                    (links.linked current.node here.node here.list here.at here.listed)
                    rest-IsBeam in
                let cover₁ =
                  expanded-IsCovered idx layer admit ef b₁ current.node here.list nbs seen_all (
                    on.covered (λ n. n ≡ current.node)
                      (popped-IsCovered idx layer admit ef b current frontier same cover)) in
                let (b', s', run, h', closed, later) =
                  beam_loop-ok rounds b₁.frontier b₁ s₁ refl on.kept cover₁
                    (omega (arith, on.less, size, enough)) in
                (
                  b',
                  s',
                  simp (beam_loop, t, nbs, run₁, run, ◌>>=◌),
                  h',
                  closed,
                  λ n before. later n (on.seen n before),
                )
          ]

      start_beam : Candidate → Bool → Beam
      start_beam start ad = record {
        visited = set (replicate (length idx.nodes) false) start.node true;
        frontier = start ∷ [];
        best = if ad then start ∷ [] else [];
      }

      start_beam-IsBeam :
          (start : Candidate) (ad : Bool)
          → StandsAt idx layer query admit start
          → admit start.node ≡ ok ad
          → start.node < length idx.nodes
          → suc (unseen (set (replicate (length idx.nodes) false) start.node true))
            ≡ length idx.nodes
          → 1 ≤ ef
          → IsBeam idx layer query admit ef (start_beam start ad)
      unfolding start_beam
      start_beam-IsBeam start true stands answer inside unseen_start positive =
          let size = length-replicate (length idx.nodes) false in
          record {
            flags =
                omega
                  (arith, length-set (replicate (length idx.nodes) false) start.node true, size);
            front = (stands, tt);
            results = record {
              admitted = ((stands, answer), tt);
              sorted = (tt, tt);
              apart = (tt, tt);
              bounded = positive;
            };
            marked = (
              get_elem?-set_self (replicate (length idx.nodes) false) start.node true
                  (omega (arith, size, inside)),
              tt,
            );
            counted = omega (arith, unseen_start);
          }
      start_beam-IsBeam start false stands answer inside unseen_start positive = record {
        flags = omega (
          arith,
          length-set (replicate (length idx.nodes) false) start.node true,
          length-replicate (length idx.nodes) false,
        );
        front = (stands, tt);
        results = record { admitted = tt; sorted = tt; apart = tt; bounded = omega arith };
        marked = tt;
        counted = omega (arith, unseen_start);
      }

      start_beam-IsCovered :
          (start : Candidate) (ad : Bool)
          → admit start.node ≡ ok ad
          → start.node < length idx.nodes
          → IsCovered idx layer admit ef (NoneOpen idx layer admit ef) (start_beam start ad)
      unfolding start_beam
      start_beam-IsCovered start ad answer inside = record {
        kept = λ room n seen yes_n.
            let same = only_start (length idx.nodes) start.node n seen in
            let admitted_start : ad ≡ true =
              let at_start : admit start.node ≡ ok true = rw same yes_n in cc in
            rw admitted_start (inl same);
        followed = λ room n seen. inl (inl (only_start (length idx.nodes) start.node n seen));
      }

      -- `search_layer` returns, with the results of a beam, at most one for each node. If they are fewer than `ef`, every admitted
      -- node that the links of the layer lead to from the start is one of them.
      pub search_layer-ok :
          (start : Candidate) (s : S)
          → StandsAt idx layer query admit start
          → 1 ≤ ef
          → (found : List Candidate) × (s' : S) × (search_layer sink idx query start ef layer admit
                s
              ≡ ok (found, s'))
            × AreResults idx layer query admit ef found
            × (length found ≤ length idx.nodes)
            × (length found < ef
                → (n : ℕ) → Reaches idx layer start.node n
                → admit n ≡ ok true
                → Listed n found)
      unfolding search_layer start_beam
      search_layer-ok start s stands positive =
          let inside = HasLayer-lt idx start.node stands.there in
          let fresh = get_elem?-replicate (length idx.nodes) start.node inside in
          let flags = replicate (length idx.nodes) false in
          let (ad, answer) = answers start.node stands.there in
          let unseen_start : suc (unseen (set flags start.node true)) ≡ length idx.nodes =
            omega (arith, unseen-set flags start.node fresh, unseen-replicate (length idx.nodes)) in
          let (b', s', run, h', closed, later) =
            beam_loop-ok (suc (length idx.nodes)) (start ∷ []) (start_beam start ad) s refl
              (start_beam-IsBeam start ad stands answer inside unseen_start positive)
              (start_beam-IsCovered start ad answer inside) (omega (arith, unseen_start)) in
          let size = length-replicate (length idx.nodes) false in
          let at_start =
            later start.node
              (get_elem?-set_self flags start.node true (omega (arith, size, inside))) in
          (
            b'.best,
            s',
            simp (fresh, answer, run, ◌>>=◌),
            h'.results,
            omega (arith, h'.counted),
            λ room n reached yes_n.
                closed.listed room n
                  (Reaches-IsSeen idx layer admit ef b' start.node n closed room at_start reached)
                  yes_n,
          )
