-- ===== src/Cli/Load.antt =====
-- Loading into a flat index: every line is taken, or the load stops with an error.
use vexdb.Prelude.{
  ℕ, suc, Bool, true, false, ◌||◌, Option, none, some, List, [], ◌∷◌, ◌++◌, String, ◌≡◌, refl, sym,
  ap, ◌∙◌, arith, length, ◌==◌, Bool-cases, Option-cases, ◌⊎◌, inl, inr,
}
use mathlib.Core.List.{append_assoc, append-nil}
use vexdb.Platform.{Platform}
use vexdb.Error.{VectorId, dimension_mismatch, duplicate_id}
use vexdb.Vector
use vexdb.Collections.Dict
use vexdb.Collections.Dict.{nat_eq}
use vexdb.Flat
use vexdb.Flat.{FlatIndex, Entry}
use vexdb.Flat.Invariant.{IsValid, new-IsValid}
use vexdb.Distance.Metric.{DistanceMetric}
use vexdb.Flat.Add.{add_duplicate, appended, add-appended, add-IsValid}
use vexdb.Attempt.{Attempt, ok, err, ◌>>=◌}
use vexdb.Cli.{
  Failure, Record, World, flat_indexing, load_record, load_lines, load_into, build_index,
  validating, adding, parsing, reading,
}

module _ ⦃p : Platform⦄ where
  abbrev pub entry_of : Record → Entry
  entry_of r = record { id = r.id; vector = Vector.from_vec r.vector; payload = r.payload }

  -- `idx'` is well formed, of the same dimension and metric, and has the entries behind those of `idx`.
  pub record IsLoaded (idx : FlatIndex) (added : List Entry) (idx' : FlatIndex) : Type 0 where
    pub valid : IsValid idx'
    pub same_dim : idx'.dim ≡ idx.dim
    pub same_metric : idx'.metric ≡ idx.metric
    pub entries : idx'.entries ≡ idx.entries ++ added

  -- The file as a list of entries, or the error of its first bad line: the line cannot be read or parsed,
  -- its vector has another dimension, or its id was taken, by the index or by a line before.
  unfoldable pub entries_of :
      {Disk : Type 0}
      → World Disk
      → ℕ
      → (VectorId → Bool)
      → ℕ
      → List (Option String)
      → Attempt Failure (List Entry)
  entries_of world dim taken lineno [] = ok []
  entries_of world dim taken lineno (none ∷ lines) = err reading
  entries_of world dim taken lineno (some line ∷ lines) = elim (world.is_blank line) [
    | true ↦ entries_of world dim taken (suc lineno) lines
    | false ↦ elim (world.record_of line) [
      | none ↦ err (parsing (suc lineno))
      | some r ↦ elim (length r.vector == dim) [
        | false ↦ err (validating (suc lineno) (dimension_mismatch dim (length r.vector)))
        | true ↦ elim (taken r.id) [
          | true ↦ err (adding (suc lineno) (duplicate_id r.id))
          | false ↦ entries_of world dim (λ j. r.id == j || taken j) (suc lineno) lines >>= λ es.
              ok (entry_of r ∷ es)
        ]
      ]
    ]
  ]

  IsLoaded-trans :
      (a b c : FlatIndex) (es fs : List Entry)
      → IsLoaded a es b
      → IsLoaded b fs c
      → IsLoaded a (es ++ fs) c
  IsLoaded-trans a b c es fs g h = record {
    valid = h.valid;
    same_dim = h.same_dim ∙ g.same_dim;
    same_metric = h.same_metric ∙ g.same_metric;
    entries = h.entries ∙ (rw g.entries (append_assoc a.entries es fs));
  }

  module _ {Disk : Type 0} (world : World Disk) where
    -- What the index does is what the list says.
    abbrev pub Agrees :
        FlatIndex → Attempt Failure (List Entry) → Attempt Failure FlatIndex → Type 0
    Agrees idx listed loaded =
        ((es : List Entry) × (idx' : FlatIndex) × (listed ≡ ok es)
          × (loaded ≡ ok idx')
          × IsLoaded idx es idx')
        ⊎ ((e : Failure) × (listed ≡ err e) × (loaded ≡ err e))

    Agrees-next :
        (idx next : FlatIndex) (x : Entry)
        → IsLoaded idx (x ∷ []) next
        → (listed : Attempt Failure (List Entry)) (loaded : Attempt Failure FlatIndex)
        → Agrees next listed loaded
        → Agrees idx (listed >>= λ es. ok (x ∷ es)) loaded
    Agrees-next idx next x one listed loaded (inl (es, idx', h, h', all)) =
        inl (x ∷ es, idx', simp (h, ◌>>=◌), h', IsLoaded-trans idx next idx' (x ∷ []) es one all)
    Agrees-next idx next x one listed loaded (inr (e, h, h')) = inr (e, simp (h, ◌>>=◌), h')

    -- A record that fits and whose id is not taken.
    load_record_ok :
        (idx : FlatIndex)
        → IsValid idx
        → (n : ℕ) (r : Record) → length r.vector == idx.dim ≡ true
        → Flat.contains idx r.id ≡ false
        → (idx' : FlatIndex) × (load_record world flat_indexing idx.dim n r idx ≡ ok idx')
          × IsLoaded idx (entry_of r ∷ []) idx'
          × ((j : VectorId) → Flat.contains idx' j ≡ (r.id == j || Flat.contains idx j))
    unfolding load_record Vector.new Flat.contains Dict.contains_key
    load_record_ok idx w n r sized fresh =
        let v = Vector.from_vec r.vector in
        let fits : Vector.dim v ≡ idx.dim = ground (arith, sized) in
        let absent : Dict.get idx.id_to_pos r.id ≡ none = ground (arith, fresh) in
        let added = add-appended idx r.id v r.payload fits absent in
        (
          appended idx r.id v r.payload,
          simp (load_record, Vector.new, sized, added, ◌>>=◌),
          record {
            valid = add-IsValid idx r.id v r.payload w added;
            same_dim = refl;
            same_metric = refl;
            entries = refl;
          },
          λ j. ground (arith, Dict.get-insert idx.id_to_pos r.id (length idx.entries) j),
        )

    load_record_err :
        (idx : FlatIndex) (n : ℕ) (r : Record)
        → length r.vector == idx.dim ≡ false
        → load_record world flat_indexing idx.dim n r idx
          ≡ err (validating n (dimension_mismatch idx.dim (length r.vector)))
    unfolding load_record Vector.new
    load_record_err idx n r misfit = simp (load_record, Vector.new, misfit, ◌>>=◌)

    load_record_taken :
        (idx : FlatIndex) (n : ℕ) (r : Record)
        → length r.vector == idx.dim ≡ true
        → Flat.contains idx r.id ≡ true
        → load_record world flat_indexing idx.dim n r idx ≡ err (adding n (duplicate_id r.id))
    unfolding load_record Vector.new Flat.contains
    load_record_taken idx n r sized held =
        let v = Vector.from_vec r.vector in
        let added = add_duplicate idx r.id v r.payload (ground (arith, sized)) held in
        simp (load_record, Vector.new, sized, added, ◌>>=◌)

    load_lines-entries_of :
        (idx : FlatIndex)
        → IsValid idx
        → (dim : ℕ) → dim ≡ idx.dim
        → (taken : VectorId → Bool) → ((j : VectorId) → Flat.contains idx j ≡ taken j)
        → (lineno : ℕ) (lines : List (Option String))
        → Agrees idx
            (entries_of world dim taken lineno lines)
            (load_lines world flat_indexing dim lineno lines idx)
    unfolding entries_of load_lines
    load_lines-entries_of idx w dim e taken known lineno [] = inl (
      [],
      idx,
      refl,
      refl,
      record {
        valid = w;
        same_dim = refl;
        same_metric = refl;
        entries = sym (append-nil idx.entries);
      },
    )
    load_lines-entries_of idx w dim e taken known lineno (none ∷ lines) = inr (reading, refl, refl)
    load_lines-entries_of idx w dim e taken known lineno (some line ∷ lines) =
        elim (Bool-cases (world.is_blank line)) [
          | inl blank ↦
              simp (entries_of, load_lines, blank)
                (load_lines-entries_of idx w dim e taken known (suc lineno) lines)
          | inr text ↦ elim (Option-cases (world.record_of line)) [
            | inl bad ↦ inr (
              parsing (suc lineno),
              simp (entries_of, text, bad),
              simp (load_lines, text, bad, ◌>>=◌),
            )
            | inr (r, parsed) ↦ elim (Bool-cases (length r.vector == dim)) [
              | inr misfit ↦
                  let failed : load_record world flat_indexing dim (suc lineno) r idx
                      ≡ err (validating (suc lineno) (dimension_mismatch dim (length r.vector))) =
                    rw e (load_record_err idx (suc lineno) r (rw e at misfit)) in
                  inr (
                    validating (suc lineno) (dimension_mismatch dim (length r.vector)),
                    simp (entries_of, text, parsed, misfit),
                    simp (load_lines, text, parsed, failed, ◌>>=◌),
                  )
              | inl sized ↦ elim (Bool-cases (taken r.id)) [
                | inl held ↦
                    let failed : load_record world flat_indexing dim (suc lineno) r idx
                        ≡ err (adding (suc lineno) (duplicate_id r.id)) =
                      rw e (
                        load_record_taken idx (suc lineno) r (rw e at sized) (known r.id ∙ held)) in
                    inr (
                      adding (suc lineno) (duplicate_id r.id),
                      simp (entries_of, text, parsed, sized, held),
                      simp (load_lines, text, parsed, failed, ◌>>=◌),
                    )
                | inr free ↦
                    let (next, run, one, knows) =
                      load_record_ok idx w (suc lineno) r (rw e at sized) (known r.id ∙ free) in
                    let run' : load_record world flat_indexing dim (suc lineno) r idx ≡ ok next =
                      rw e run in
                    let rest =
                      load_lines-entries_of next one.valid dim (e ∙ sym one.same_dim)
                        (λ j. r.id == j || taken j) (λ j. knows j ∙ ap (◌||◌ (r.id == j)) (known j))
                        (suc lineno) lines in
                    simp (entries_of, load_lines, text, parsed, sized, free, run', ◌>>=◌)
                      (Agrees-next idx next (entry_of r) one _ _ rest)
              ]
            ]
          ]
        ]

    -- Building a flat index from a file is reading its entries. For a file that opens: either every line
    -- is blank or a record of the dimension whose id no line before it has, and the build succeeds with
    -- a well-formed index of that dimension and metric that holds the entries of the file in their order
    -- and no others; or the build fails with the error and the line number of the first line that is not.
    pub build_index-entries_of :
        (disk : Disk) (path : String) (dim : ℕ) (metric : DistanceMetric)
        (lines : List (Option String))
        → world.open_lines disk path ≡ some lines
        → Agrees
            (Flat.new dim metric)
            (entries_of world dim (λ id. false) 0 lines)
            (build_index world disk path dim metric)
    unfolding build_index load_into Flat.new Flat.contains Dict.contains_key Dict.get
    build_index-entries_of disk path dim metric lines opened =
        simp (build_index, load_into, opened, ◌>>=◌)
          (load_lines-entries_of (Flat.new dim metric) (new-IsValid dim metric) dim refl
            (λ id. false) (λ id. refl) 0 lines)
