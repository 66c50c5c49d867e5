-- ===== src/Server/Applied.antt =====
-- The loop of `upsert_points` on a collection of either kind: it never stops at an error.
use vexdb.Prelude.{ℕ, Bool, true, List, [], ◌∷◌, ◌≡◌, refl, arith, length, ◌==◌}
use vexdb.Platform.{Platform}
use vexdb.Error
use vexdb.Error.{VectorId, Outcome, ◌>>=◌}
use vexdb.Error.Yield.{Yields, >>=-Yields}
use vexdb.Vector
use vexdb.Vector.{Vector}
use vexdb.Collections.Dict.{nat_eq}
use vexdb.Hnsw
use vexdb.Hnsw.{HnswIndex}
use vexdb.Hnsw.Replacement.{Sized, Freed, add_with_payload-Yields, remove-Yields}
use vexdb.Persist.Any
use vexdb.Persist.Any.{AnyIndex, flat, hnsw}
use vexdb.Persist.Sound.{IsSound}
use vexdb.Server.{Reply, done, failed, panicked, stuck}
use vexdb.Server.Routes.{PointInput, attempt, apply_points, all_sized}
use vexdb.Server.Upsert.{apply_points-IsUpserted}

module _ ⦃p : Platform⦄ where
  open p use {Value}

  -- What the loop may end with: no error, and an index that is well formed if the loop came through.
  abbrev pub IsApplied : AnyIndex × Reply (Unit {0}) → Type 0
  IsApplied (index, done _) = IsSound index
  IsApplied (index, failed e) = ⊥
  IsApplied (index, panicked) = Unit
  IsApplied (index, stuck) = Unit

  attempt-IsApplied :
      {A : Type 0} (P : A → Type 0) (index : AnyIndex) (o : Outcome A)
      (next : A → AnyIndex × Reply (Unit {0}))
      → Yields P o
      → ((a : A) → P a → IsApplied (next a))
      → IsApplied (attempt index o next)
  attempt-IsApplied P index (Error.ok a) next h rest = rest a h
  attempt-IsApplied P index (Error.err e) next h rest = absurd h
  attempt-IsApplied P index Error.panic next h rest = tt
  attempt-IsApplied P index Error.stuck next h rest = tt

  -- A graph index of the dimension.
  abbrev OfGraph : ℕ → AnyIndex → Type 0
  OfGraph dim (flat idx) = ⊥
  OfGraph dim (hnsw idx) = Sized dim idx

  abbrev FreedGraph : ℕ → VectorId → AnyIndex × Bool → Type 0
  FreedGraph dim id (flat idx, removed) = ⊥
  FreedGraph dim id (hnsw idx, removed) = Freed dim id (idx, removed)

  new-Yields :
      (values : List p.F32) (dim : ℕ)
      → length values ≡ dim
      → Yields (λ v. Vector.dim v ≡ dim) (Vector.new values dim)
  unfolding Vector.new
  new-Yields values dim fits =
      let test : (length values == dim) ≡ true = ground arith in rw test fits

  remove-FreedGraph :
      (idx : HnswIndex) (dim : ℕ) (id : VectorId)
      → idx.dim ≡ dim
      → Yields (FreedGraph dim id) (Any.remove (hnsw idx) id)
  remove-FreedGraph idx dim id sized =
      >>=-Yields (Freed dim id) (FreedGraph dim id) (Hnsw.Insert.remove idx id) _
        (remove-Yields dim idx id sized) λ (i', removed) freed. freed

  add-OfGraph :
      (index : AnyIndex) (removed : Bool) (dim : ℕ) (pt : PointInput) (v : Vector)
      → FreedGraph dim pt.id (index, removed)
      → Vector.dim v ≡ dim
      → Yields (OfGraph dim) (Any.add_with_payload index pt.id v pt.payload)
  add-OfGraph (flat idx) removed dim pt v freed fits = absurd freed
  add-OfGraph (hnsw idx) removed dim pt v (sized, free) fits =
      >>=-Yields (Sized dim) (OfGraph dim) (Hnsw.Insert.add_with_payload idx pt.id v pt.payload) _
        (add_with_payload-Yields dim idx pt.id v pt.payload sized fits free) λ i' same. same

  graph-IsApplied :
      (dim : ℕ) (index : AnyIndex) (pts : List PointInput)
      → OfGraph dim index
      → all_sized dim pts ≡ true
      → IsApplied (apply_points index dim pts)
  unfolding apply_points all_sized
  graph-IsApplied dim (flat idx) pts h sized = absurd h
  graph-IsApplied dim (hnsw idx) [] h sized = tt
  graph-IsApplied dim (hnsw idx) (pt ∷ pts) h sized =
      let fits : length pt.vector ≡ dim = ground arith in
      let rest : all_sized dim pts ≡ true = ground arith in
      attempt-IsApplied (FreedGraph dim pt.id) (hnsw idx) (Any.remove (hnsw idx) pt.id) _
        (remove-FreedGraph idx dim pt.id h)
        λ (index₁, removed) freed.
          attempt-IsApplied (λ v. Vector.dim v ≡ dim) index₁ (Vector.new pt.vector dim) _
            (new-Yields pt.vector dim fits)
            λ v size.
              attempt-IsApplied (OfGraph dim) index₁
                (Any.add_with_payload index₁ pt.id v pt.payload) _
                (add-OfGraph index₁ removed dim pt v freed size)
                λ index₂ graph. graph-IsApplied dim index₂ pts graph rest

  -- A batch of points of the dimension of the index, on an index that is well formed if it is flat,
  -- is applied without an error.
  pub apply_points-IsApplied :
      (index : AnyIndex) (pts : List PointInput)
      → IsSound index
      → all_sized (Any.dim index) pts ≡ true
      → IsApplied (apply_points index (Any.dim index) pts)
  apply_points-IsApplied (flat idx) pts sound sized =
      let (idx', applied, all) = apply_points-IsUpserted idx sound idx.dim refl pts sized in
      rw applied all.valid
  apply_points-IsApplied (hnsw idx) pts sound sized =
      graph-IsApplied idx.dim (hnsw idx) pts refl sized
