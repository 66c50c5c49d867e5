-- ===== src/Wasm/Export.antt =====
-- `export_ids` and `export_vectors`: parallel, complete, and in step with `vector_of`.
use vexdb.Prelude.{
  ℕ, zero, suc, ◌+◌, ◌*◌, Option, some, List, [], ◌∷◌, ◌++◌, map, ◌≡◌, refl, arith, length,
  get_elem?, take, drop, All, All-of_get, length-append, length-map, ◌∙◌, ap,
}
use vexdb.Platform.{Platform}
use vexdb.Error.{VectorId, ok}
use vexdb.Vector.{Vector}
use vexdb.Collections.Dict.{nat_eq}
use vexdb.Flat
use vexdb.Flat.{FlatIndex, Entry}
use vexdb.Flat.Invariant.{IsValid}
use vexdb.Persist.Any
use vexdb.Persist.Any.{AnyIndex, flat, hnsw}
use vexdb.Persist.Bytes.{take-append}
use vexdb.Wasm.{Inner, concat_vectors, export_ids, export_vectors, vector_of}

module _ {ℓ} {A : Type ℓ} where
  drop_past : (xs ys : List A) (n m : ℕ) → length xs ≡ n → drop (n + m) (xs ++ ys) ≡ drop m ys
  drop_past [] ys n m size = let e : n + m ≡ m = omega arith in rw e refl
  drop_past (x ∷ xs) ys zero m size = absurd (omega arith)
  drop_past (x ∷ xs) ys (suc n) m size =
      let e : suc n + m ≡ suc (n + m) = omega arith in rw e (drop_past xs ys n m (omega arith))

  get_elem?-map {κ} :
      {B : Type κ} (f : A → B) (xs : List A) (i : ℕ) {b : B}
      → get_elem? (map f xs) i ≡ some b
      → (a : A) × (get_elem? xs i ≡ some a) × (f a ≡ b)
  get_elem?-map f [] i h = cc
  get_elem?-map f (x ∷ xs) zero h = (x, refl, cc)
  get_elem?-map f (x ∷ xs) (suc i) h = get_elem?-map f xs i h

  All-map {κ μ} :
      {B : Type κ} (P : B → Type μ) (f : A → B) (xs : List A)
      → All (λ a. P (f a)) xs
      → All P (map f xs)
  All-map P f [] h = tt
  All-map P f (x ∷ xs) h = (h.0, All-map P f xs h.1)

  All-at {κ} :
      (P : A → Type κ) (xs : List A) (i : ℕ) {a : A} → All P xs → get_elem? xs i ≡ some a → P a
  All-at P [] i h at = cc
  All-at P (x ∷ xs) zero h at = let same : x ≡ _ = cc in rw same at h.0
  All-at P (x ∷ xs) (suc i) h at = All-at P xs i h.1 at

module _ ⦃p : Platform⦄ where
  open p use {F32, Value}

  -- An id, its vector and its payload.
  abbrev Live : Type 0
  Live = VectorId × Vector × Option Value

  -- Every live vector has the dimension of the index, and is the one that `vector` gives for its id.
  pub record IsReadable (index : AnyIndex) : Type 0 where
    pub sized : All (λ (e : Live). length e.1.values ≡ Any.dim index) (Any.iter_live index)
    pub looked_up : All (λ (e : Live). Any.vector index e.0 ≡ ok (some e.1)) (Any.iter_live index)

  abbrev to_live : Entry → Live
  to_live e = (e.id, e.vector, e.payload)

  -- A well-formed flat index.
  pub flat-IsReadable : (idx : FlatIndex) → IsValid idx → IsReadable (flat idx)
  unfolding Flat.iter_live Flat.vector
  flat-IsReadable idx w = record {
    sized = All-map _ to_live idx.entries (All-of_get _ idx.entries w.sized);
    looked_up =
        All-map _ to_live idx.entries
          (All-of_get _ idx.entries (λ i entry at. ground (arith, w.mapped i entry at, at)));
  }

  length-concat_vectors :
      (n : ℕ) (es : List Live)
      → All (λ (e : Live). length e.1.values ≡ n) es
      → length (concat_vectors es) ≡ length es * n
  length-concat_vectors n [] h = omega arith
  length-concat_vectors n (e ∷ es) h =
      let head = h.0 in
      let rest = length-concat_vectors n es h.1 in
      let e' : suc (length es) * n ≡ n + length es * n = omega arith in
      rw e' (omega (arith, length-append {0} e.1.values (concat_vectors es), head, rest))

  row_of :
      (n : ℕ) (es : List Live) (i : ℕ) (e : Live)
      → All (λ (e : Live). length e.1.values ≡ n) es
      → get_elem? es i ≡ some e
      → take n (drop (i * n) (concat_vectors es)) ≡ e.1.values
  row_of n [] i e h at = cc
  row_of n (x ∷ es) zero e h at =
      let same : x ≡ e = cc in
      let start : 0 * n ≡ 0 = omega arith in
      let whole : take n (x.1.values ++ concat_vectors es) ≡ x.1.values =
        rw h.0 at (take-append x.1.values (concat_vectors es)) in
      rw start (whole ∙ ap (λ (l : Live). l.1.values) same)
  row_of n (x ∷ es) (suc i) e h at =
      let e' : suc i * n ≡ n + i * n = omega arith in
      rw e' (rw (drop_past x.1.values (concat_vectors es) n (i * n) h.0) (row_of n es i e h.1 at))

  -- The export of an index whose live vectors have its dimension and are what `vector` gives for their
  -- ids: there is an id for each live vector, the vectors are laid out in rows of the dimension and
  -- nothing else, and row i holds what `vector_of` gives for id i.
  pub export_vectors-export_ids :
      (inner : Inner)
      → IsReadable inner.index
      → (length (export_ids inner) ≡ length (Any.iter_live inner.index))
        × (length (export_vectors inner) ≡ length (export_ids inner) * Any.dim inner.index)
        × ((i : ℕ) (id : ℕ)
            → get_elem? (export_ids inner) i ≡ some id
            → (v : List F32) × (vector_of inner id ≡ ok (some v))
              × (take (Any.dim inner.index) (drop (i * Any.dim inner.index) (export_vectors inner))
                  ≡ v))
  unfolding export_ids export_vectors vector_of
  export_vectors-export_ids inner r =
      let es = Any.iter_live inner.index in
      let n = Any.dim inner.index in
      let count = length-map es (λ e. e.0) in
      (
        count,
        rw count (length-concat_vectors n es r.sized),
        λ i id at.
            let (e, here, same) = get_elem?-map (λ (e : Live). e.0) es i at in
            let found : Any.vector inner.index id ≡ ok (some e.1) =
              rw same at (All-at _ es i r.looked_up here) in
            (e.1.values, simp found, row_of n es i e r.sized here),
      )
