-- ===== src/Hnsw/Beam.antt =====
-- The beam of `search_layer`: its candidates, and its results.
use vexdb.Prelude.{
  ℕ, zero, suc, ◌+◌, ◌≤◌, ◌<◌, Bool, true, false, some, List, [], ◌∷◌, ◌≡◌, ◌≢◌, refl, sym, arith,
  length, get_elem?, set, replicate, All, All-take, length-take-le, length-take,
}
use vexdb.Platform.{Platform}
use vexdb.Platform.Laws.{FloatOrder}
use vexdb.Error.{Outcome, ok}
use vexdb.Collections.Heap.{push}
use vexdb.Collections.Heap.Sorted.{IsSorted, All-push, length-push, push-IsSorted}
use vexdb.Collections.Heap.Bounded.{take-IsSorted}
use vexdb.Collections.Heap.Kept.{Pairwise, take-Pairwise, push-Pairwise, push-cut}
use vexdb.Hnsw.{HnswIndex, Candidate, cmp_candidate}
use vexdb.Hnsw.Layer.{Beam, admit_best}
use vexdb.Hnsw.Graph.{Stands}
use vexdb.Hnsw.CandidateOrder.{cmp_candidate-IsTotalOrder}

-- How many nodes are not visited.
abbrev pub unseen : List Bool → ℕ
unseen [] = 0
unseen (true ∷ bs) = unseen bs
unseen (false ∷ bs) = suc (unseen bs)

pub unseen-set :
    (bs : List Bool) (n : ℕ)
    → get_elem? bs n ≡ some false
    → suc (unseen (set bs n true)) ≡ unseen bs
unseen-set [] n h = cc
unseen-set (true ∷ bs) zero h = cc
unseen-set (false ∷ bs) zero h = refl
unseen-set (true ∷ bs) (suc n) h = unseen-set bs n h
unseen-set (false ∷ bs) (suc n) h = omega (arith, unseen-set bs n h)

pub unseen-replicate : (n : ℕ) → unseen (replicate n false) ≡ n
unseen-replicate zero = refl
unseen-replicate (suc n) = omega (arith, unseen-replicate n)

pub get_elem?-replicate : (n i : ℕ) → i < n → get_elem? (replicate n false) i ≡ some false
get_elem?-replicate zero i h = absurd (omega arith)
get_elem?-replicate (suc n) zero h = refl
get_elem?-replicate (suc n) (suc i) h = get_elem?-replicate n i (omega arith)

-- A visited node stays visited.
pub get_elem?-set-true :
    (bs : List Bool) (i j : ℕ)
    → get_elem? bs i ≡ some true
    → get_elem? (set bs j true) i ≡ some true
get_elem?-set-true [] i j h = h
get_elem?-set-true (b ∷ bs) zero zero h = refl
get_elem?-set-true (b ∷ bs) zero (suc j) h = h
get_elem?-set-true (b ∷ bs) (suc i) zero h = h
get_elem?-set-true (b ∷ bs) (suc i) (suc j) h = get_elem?-set-true bs i j h

module _ ⦃p : Platform⦄ where
  open p use {F32, lt_f}

  abbrev pub Apart : Candidate → Candidate → Type 0
  Apart a b = a.node ≢ b.node

  module _ (idx : HnswIndex) (layer : ℕ) (query : List F32) (admit : ℕ → Outcome Bool) where
    abbrev pub StandsAt : Candidate → Type 0
    StandsAt c = Stands idx layer query c.node c.distance

    abbrev pub IsAdmitted : Candidate → Type 0
    IsAdmitted c = StandsAt c × (admit c.node ≡ ok true)

    abbrev pub IsVisited : List Bool → Candidate → Type 0
    IsVisited visited c = get_elem? visited c.node ≡ some true

    -- The results of a beam: admitted nodes of the layer with their distances, nearest first, ties by
    -- position, no node twice, at most `ef`.
    pub record AreResults (ef : ℕ) (best : List Candidate) : Type 0 where
      pub admitted : All IsAdmitted best
      pub sorted : IsSorted cmp_candidate best
      pub apart : Pairwise Apart best
      pub bounded : length best ≤ ef

    pub record IsBeam (ef : ℕ) (b : Beam) : Type 0 where
      pub flags : length b.visited ≡ length idx.nodes
      pub front : All StandsAt b.frontier
      pub results : AreResults ef b.best
      pub marked : All (IsVisited b.visited) b.best
      pub counted : length b.best + unseen b.visited ≤ length idx.nodes

    -- rounds_left left to a beam: a node is visited once, and each round takes one from the frontier.
    abbrev pub work : Beam → ℕ
    work b = unseen b.visited + length b.frontier

    module _ (floats : FloatOrder p) (ef : ℕ) where
      -- A new admitted candidate among the results.
      pub admit_best-AreResults :
          (best : List Candidate) (c : Candidate)
          → IsAdmitted c
          → All (Apart c) best
          → AreResults ef best
          → AreResults ef (admit_best ef best c)
      unfolding admit_best
      admit_best-AreResults best c good new r =
          let order = cmp_candidate-IsTotalOrder floats in
          let pushed = push cmp_candidate c best in
          rw (push-cut cmp_candidate ef best c r.bounded) (record {
            admitted =
                All-take IsAdmitted ef pushed
                  (All-push cmp_candidate IsAdmitted c best good r.admitted);
            sorted =
                take-IsSorted cmp_candidate order ef pushed
                  (push-IsSorted cmp_candidate order c best r.sorted);
            apart =
                take-Pairwise Apart ef pushed
                  (push-Pairwise Apart cmp_candidate (λ x y d e. d (sym e)) c best new r.apart);
            bounded = length-take-le ef pushed;
          })

      pub length-admit_best-le :
          (best : List Candidate) (c : Candidate)
          → length best ≤ ef
          → length (admit_best ef best c) ≤ suc (length best)
      unfolding admit_best
      length-admit_best-le best c short =
          let size = length-push cmp_candidate c best in
          rw (push-cut cmp_candidate ef best c short)
            (omega (arith, length-take ef (push cmp_candidate c best), size))

      pub admit_best-IsVisited :
          (visited : List Bool) (best : List Candidate) (c : Candidate)
          → length best ≤ ef
          → IsVisited visited c
          → All (IsVisited visited) best
          → All (IsVisited visited) (admit_best ef best c)
      unfolding admit_best
      admit_best-IsVisited visited best c short here h =
          rw (push-cut cmp_candidate ef best c short) (
            All-take (IsVisited visited) ef (push cmp_candidate c best)
              (All-push cmp_candidate (IsVisited visited) c best here h))
