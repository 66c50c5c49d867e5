-- ===== src/Server/Upsert.antt =====
-- `upsert_points` on a collection with a flat index: all of the batch or nothing.
use vexdb.Prelude.{
  ℕ, Bool, true, false, Option, some, List, [], ◌∷◌, ◌≡◌, ◌≢◌, refl, sym, ap, ◌∙◌, arith, length,
  String, ltb, ◌<◌, ◌≤◌, ◌==◌, if◌then◌else◌, ◌⊎◌, inl, inr, Bool-cases,
}
use vexdb.Platform.{Platform}
use vexdb.Error
use vexdb.Error.{VectorId, Outcome, dimension_mismatch, duplicate_id}
use vexdb.Vector
use vexdb.Vector.{Vector}
use vexdb.Flat
use vexdb.Flat.{FlatIndex, Entry}
use vexdb.Flat.Invariant.{IsValid}
use vexdb.Flat.Remove.{stored, remove-IsWithout}
use vexdb.Flat.View.{add_cases}
use vexdb.Flat.Add.{add_ok}
use vexdb.Persist.Any.{flat}
use vexdb.Server.{ApiError, read_only, bad_request, done, failed, Collection, AppState, get}
use vexdb.Server.Routes.{
  PointInput, apply_points, all_sized, upsert_points, update, write_back, max_batch,
}

module _ ⦃p : Platform⦄ where
  abbrev pub entry_of : PointInput → Entry
  entry_of pt = record { id = pt.id; vector = Vector.from_vec pt.vector; payload = pt.payload }

  -- What an id has after a batch: the last point of the batch with the id, else what it had.
  unfoldable pub upserted : List PointInput → VectorId → Option Entry → Option Entry
  upserted [] j before = before
  upserted (pt ∷ pts) j before = upserted pts j (if pt.id == j then some (entry_of pt) else before)

  -- `idx'` is well formed, of the same dimension, and holds the batch over what `idx` held.
  pub record IsUpserted (idx : FlatIndex) (pts : List PointInput) (idx' : FlatIndex) : Type 0 where
    pub valid : IsValid idx'
    pub same_dim : idx'.dim ≡ idx.dim
    pub content : (j : VectorId) → stored idx' j ≡ upserted pts j (stored idx j)

  -- One point replaces or adds its entry.
  replace_point :
      (idx : FlatIndex)
      → IsValid idx
      → (pt : PointInput) → length pt.vector ≡ idx.dim
      → (mid : FlatIndex) × (removed : Bool) × (idx' : FlatIndex) × (Flat.remove idx pt.id
          ≡ Error.ok (mid, removed))
        × (mid.dim ≡ idx.dim)
        × (Flat.add_with_payload mid pt.id (Vector.from_vec pt.vector) pt.payload ≡ Error.ok idx')
        × IsUpserted idx (pt ∷ []) idx'
  unfolding upserted
  replace_point idx w pt fits =
      let (mid, gone, without) = remove-IsWithout idx w pt.id in
      let v = Vector.from_vec pt.vector in
      elim (add_cases mid without.valid pt.id v pt.payload) [
        | inl (misfit, _) ↦ absurd (misfit (fits ∙ sym without.same_dim))
        | inr (inl (_, held, _)) ↦ absurd (held without.gone)
        | inr (inr (_, _, (idx', added, valid, new, others))) ↦ (
          mid,
          Flat.contains idx pt.id,
          idx',
          gone,
          without.same_dim,
          added,
          record {
            valid = valid;
            same_dim = ap (λ i. i.dim) (add_ok mid pt.id v pt.payload added).2 ∙ without.same_dim;
            content = λ j. elim (Bool-cases (pt.id == j)) [
              | inl e ↦ let same : pt.id ≡ j = ground arith in ground (arith, rw same at new)
              | inr ne ↦
                  let other : j ≢ pt.id = ground arith in
                  rw ne (others j other ∙ without.rest j other)
            ];
          },
        )
      ]

  apply_point :
      (idx mid next : FlatIndex) (removed : Bool) (dim : ℕ) (pt : PointInput)
      (pts : List PointInput)
      → length pt.vector ≡ dim
      → Flat.remove idx pt.id ≡ Error.ok (mid, removed)
      → Flat.add_with_payload mid pt.id (Vector.from_vec pt.vector) pt.payload ≡ Error.ok next
      → apply_points (flat idx) dim (pt ∷ pts) ≡ apply_points (flat next) dim pts
  unfolding apply_points Vector.new
  apply_point idx mid next removed dim pt pts fits gone added =
      let sized : (length pt.vector == dim) ≡ true = ground arith in
      simp (apply_points, gone, sized, added)

  -- A batch of points of the index's dimension is applied whole, with no error and no panic.
  pub apply_points-IsUpserted :
      (idx : FlatIndex)
      → IsValid idx
      → (dim : ℕ) → dim ≡ idx.dim
      → (pts : List PointInput) → all_sized dim pts ≡ true
      → (idx' : FlatIndex) × (apply_points (flat idx) dim pts ≡ (flat idx', done tt))
        × IsUpserted idx pts idx'
  unfolding apply_points all_sized upserted
  apply_points-IsUpserted idx w dim e [] h =
      (idx, refl, record { valid = w; same_dim = refl; content = λ j. refl })
  apply_points-IsUpserted idx w dim e (pt ∷ pts) h =
      let fits : length pt.vector ≡ dim = ground arith in
      let rest : all_sized dim pts ≡ true = ground arith in
      let (mid, removed, next, gone, mid_dim, added, one) = replace_point idx w pt (fits ∙ e) in
      let (idx', applied, all) =
        apply_points-IsUpserted next one.valid dim (e ∙ sym one.same_dim) pts rest in
      (
        idx',
        apply_point idx mid next removed dim pt pts fits gone added ∙ applied,
        record {
          valid = all.valid;
          same_dim = all.same_dim ∙ one.same_dim;
          content = λ j. all.content j ∙ ap (upserted pts j) (one.content j);
        },
      )

  -- The requests that an upsert accepts: the server takes writes, the batch is neither empty nor too
  -- large, and every vector has the dimension.
  abbrev pub Accepts : {Disk : Type 0} → AppState Disk → ℕ → List PointInput → Type 0
  Accepts state dim points =
      (state.is_read_only ≡ false)
      × (0 < length points)
      × (length points ≤ max_batch)
      × (all_sized dim points ≡ true)

  accepted :
      {Disk : Type 0} (state : AppState Disk) (name : String) (points : List PointInput)
      (c : Collection) (idx : FlatIndex)
      → get state name ≡ some c
      → c.index ≡ flat idx
      → IsValid idx
      → Accepts state idx.dim points
      → (idx' : FlatIndex) × (upsert_points state name points ≡ (
        update state name (record c { index = flat idx'; dirty = true }),
        done (length points),
      ))
        × IsUpserted idx points idx'
  unfolding upsert_points write_back
  accepted state name points c idx found kind w (writable, some_points, short, sized) =
      let (idx', applied, content) = apply_points-IsUpserted idx w idx.dim refl points sized in
      let filled : (length points == 0) ≡ false = ground arith in
      let fits : ltb max_batch (length points) ≡ false = ground arith in
      (
        idx',
        simp (writable, filled, fits, found, kind, sized, applied, upsert_points, write_back),
        content,
      )

  pub upsert_points-IsUpserted :
      {Disk : Type 0} (state : AppState Disk) (name : String) (points : List PointInput)
      (c : Collection) (idx : FlatIndex)
      → get state name ≡ some c
      → c.index ≡ flat idx
      → IsValid idx
      → ((¬ Accepts state idx.dim points)
          × ((e : ApiError) × (upsert_points state name points ≡ (state, failed e))))
        ⊎ ((idx' : FlatIndex) × (upsert_points state name points ≡ (
          update state name (record c { index = flat idx'; dirty = true }),
          done (length points),
        ))
            × IsUpserted idx points idx')
  unfolding upsert_points
  upsert_points-IsUpserted state name points c idx found kind w =
      elim (Bool-cases state.is_read_only) [
        | inl h ↦ inl (λ a. ground (arith, a, h), (read_only, simp (h, upsert_points)))
        | inr writable ↦ elim (Bool-cases (length points == 0)) [
          | inl h ↦ inl (
            λ a. ground (arith, a, h),
            (bad_request "points must not be empty", simp (writable, h, upsert_points)),
          )
          | inr filled ↦ elim (Bool-cases (ltb max_batch (length points))) [
            | inl h ↦ inl (
              λ a. ground (arith, a, h),
              (bad_request "batch too large", simp (writable, filled, h, upsert_points)),
            )
            | inr fits ↦ elim (Bool-cases (all_sized idx.dim points)) [
              | inr h ↦ inl (
                λ a. ground (arith, a, h),
                (
                  bad_request "dimension mismatch",
                  simp (writable, filled, fits, found, kind, h, upsert_points),
                ),
              )
              | inl sized ↦ inr (
                  accepted state name points c idx found kind w
                    (writable, ground arith, ground arith, sized))
            ]
          ]
        ]
      ]
