-- ===== src/Persist/FlatRoundTrip.antt =====
-- A flat snapshot reads back as the index that was written.
use native.Mathlib.Nat.{add-zero, zero-add, add-suc, suc-add}
use mathlib.Core.List.{append_assoc, append-nil}
use vexdb.Prelude.{
  ℕ, suc, ◌+◌, ◌^◌, ◌≤◌, ◌<◌, true, false, not, none, some, List, [], ◌∷◌, ◌++◌, ◌≡◌, refl, sym,
  ◌∙◌, arith, length, get_elem?, ◌==◌, ltb, if◌then◌else◌, inl, inr, Option-cases,
}
use vexdb.Platform.{Platform}
use vexdb.Platform.Laws.{FloatBits, ParsesBack, UsizeWidth}
use vexdb.Error.{VectorId}
use vexdb.Collections.Dict
use vexdb.Collections.Dict.{nat_eq}
use vexdb.Collections.Vec.{lt_of_get_elem?}
use vexdb.Flat.{FlatIndex, Entry}
use vexdb.Flat.Invariant.{IsValid}
use vexdb.Persist.Format.{ok, type_flat}
use vexdb.Persist.Write.{
  put_payload, put_u64, put_f32_slice, write_entries, write_flat, write_header,
}
use vexdb.Persist.Read.{read_entries, read_flat_body, pure, ◌>>=◌}
use vexdb.Persist.Any.{flat, read_any, write_to}
use vexdb.Persist.Bytes.{Reads, get_uint-Reads, ok_injective, write_ok}
use vexdb.Persist.Values.{get_f32_vec-Reads, get_payload-Reads, get_usize-Reads, read_header-Reads}

-- What the types and the limits of the format ask of an index, and its payloads of their texts.
pub record IsStorable ⦃p : Platform⦄ (idx : FlatIndex) : Type 0 where
  pub ids : (pos : ℕ) (e : Entry) → get_elem? idx.entries pos ≡ some e → e.id < 2 ^ 64
  pub payloads : (pos : ℕ) (e : Entry) → get_elem? idx.entries pos ≡ some e → ParsesBack p e.payload
  pub dim_pos : 0 < idx.dim
  pub dim_max : idx.dim ≤ 1_048_576
  pub dim_usize : idx.dim ≤ p.usize_max
  pub count_usize : length idx.entries ≤ p.usize_max

-- The two indexes have the same content: the entries in the same order, and the same positions.
pub record IsSame ⦃p : Platform⦄ (idx idx' : FlatIndex) : Type 0 where
  pub metric : idx'.metric ≡ idx.metric
  pub dim : idx'.dim ≡ idx.dim
  pub entries : idx'.entries ≡ idx.entries
  pub lookups : (id : VectorId) → Dict.get idx'.id_to_pos id ≡ Dict.get idx.id_to_pos id

module _ ⦃p : Platform⦄ where
  -- The parts of the bytes of an entry and the entries behind it.
  write_entries_ok :
      (e : Entry) (es : List Entry) {bytes : List ℕ}
      → write_entries (e ∷ es) ≡ ok bytes
      → (pb rb : List ℕ) × (put_payload e.payload ≡ ok pb)
        × (write_entries es ≡ ok rb)
        × (bytes ≡ put_u64 e.id ++ (pb ++ (put_f32_slice e.vector.values ++ rb)))
  unfolding write_entries
  write_entries_ok e es h =
      let (pb, e₁, h₁) = write_ok (put_payload e.payload) _ h in
      let (rb, e₂, h₂) = write_ok (write_entries es) _ h₁ in (pb, rb, e₁, e₂, sym (ok_injective h₂))

  module _ (bits : FloatBits p) (width : UsizeWidth p) (idx : FlatIndex) (w : IsValid idx)
      (storable : IsStorable idx) where
    -- A map that knows the ids of the first `pos` entries, and no others.
    Knows : ℕ → List (VectorId × ℕ) → Type 0
    Knows pos m =
        (id : VectorId)
        → Dict.get m id ≡ (elim (Dict.get idx.id_to_pos id) [
          | none ↦ none
          | some q ↦ if ltb q pos then some q else none
        ])

    Knows-insert :
        (pos : ℕ) (m : List (VectorId × ℕ)) (e : Entry)
        → get_elem? idx.entries pos ≡ some e
        → Knows pos m
        → Knows (suc pos) (Dict.insert m e.id pos)
    unfolding Knows
    Knows-insert pos m e at k id = elim (Option-cases (Dict.get idx.id_to_pos id)) [
      | inl absent ↦ ground (arith, absent, k id, Dict.get-insert m e.id pos id, w.mapped pos e at)
      | inr (q, here) ↦
          let (f, at_f, same) = w.found id q here in
          ground (arith, here, k id, Dict.get-insert m e.id pos id, w.mapped pos e at, at_f, same)
    ]

    Knows-fresh :
        (pos : ℕ) (m : List (VectorId × ℕ)) (e : Entry)
        → get_elem? idx.entries pos ≡ some e
        → Knows pos m
        → Dict.contains_key m e.id ≡ false
    unfolding Knows Dict.contains_key
    Knows-fresh pos m e at k = ground (arith, k e.id, w.mapped pos e at)

    Knows-start : Knows 0 []
    unfolding Knows Dict.get
    Knows-start id = elim (Option-cases (Dict.get idx.id_to_pos id)) [
      | inl absent ↦ ground (arith, absent)
      | inr (q, here) ↦ ground (arith, here)
    ]

    Knows-end :
        (m : List (VectorId × ℕ))
        → Knows (length idx.entries) m
        → (id : VectorId) → Dict.get m id ≡ Dict.get idx.id_to_pos id
    unfolding Knows
    Knows-end m k id = elim (Option-cases (Dict.get idx.id_to_pos id)) [
      | inl absent ↦ ground (arith, absent, k id)
      | inr (q, here) ↦
          let (f, at_f, same) = w.found id q here in
          ground (arith, here, k id, lt_of_get_elem? {0} idx.entries q at_f)
    ]

    -- One entry, before entries that read back.
    read_entry-Reads :
        (e : Entry) (rounds pos : ℕ) (acc : List Entry) (m : List (VectorId × ℕ)) (pb rb : List ℕ)
        (out : List Entry × List (VectorId × ℕ))
        → get_elem? idx.entries pos ≡ some e
        → Knows pos m
        → put_payload e.payload ≡ ok pb
        → Reads
            (read_entries rounds idx.dim (suc pos) (acc ++ (e ∷ [])) (Dict.insert m e.id pos))
            rb
            out
        → Reads
            (read_entries (suc rounds) idx.dim pos acc m)
            (put_u64 e.id ++ (pb ++ (put_f32_slice e.vector.values ++ rb)))
            out
    unfolding read_entries
    read_entry-Reads e rounds pos acc m pb rb out here k pb_ok reads rest =
        let size : length e.vector.values ≡ idx.dim = w.sized pos e here in
        let values = rw size at (get_f32_vec-Reads bits e.vector.values) in
        let fresh : not (Dict.contains_key m e.id) ≡ true = rw (Knows-fresh pos m e here k) in
        simp
          (
            append_assoc,
            get_uint-Reads 8 e.id (storable.ids pos e here),
            get_payload-Reads e.payload (storable.payloads pos e here) pb_ok,
            values,
            fresh,
            ◌>>=◌,
          )
          (reads rest)

    read_entries-Reads :
        (es : List Entry) (pos : ℕ) (acc : List Entry) (m : List (VectorId × ℕ)) {bytes : List ℕ}
        → ((i : ℕ) → get_elem? es i ≡ get_elem? idx.entries (pos + i))
        → Knows pos m
        → write_entries es ≡ ok bytes
        → (m' : List (VectorId × ℕ)) × Reads
            (read_entries (length es) idx.dim pos acc m)
            bytes
            (acc ++ es, m')
          × Knows (pos + length es) m'
    unfolding write_entries read_entries
    read_entries-Reads [] pos acc m {bytes} at k h =
        (m, λ rest. simp (← ok_injective h, append-nil, read_entries, pure), rw (add-zero pos) k)
    read_entries-Reads (e ∷ es) pos acc m {bytes} at k h =
        let (pb, rb, pb_ok, rb_ok, parts) = write_entries_ok e es h in
        let here : get_elem? idx.entries pos ≡ some e = rw (← add-zero pos) (sym (at 0)) in
        let (m', reads, k') =
          read_entries-Reads es (suc pos) (acc ++ (e ∷ [])) (Dict.insert m e.id pos)
            (λ i. at (suc i) ∙ (rw add-suc (rw suc-add))) (Knows-insert pos m e here k) rb_ok in
        (
          m',
          rw parts (
              rw (append_assoc acc (e ∷ []) es) at (
                read_entry-Reads e (length es) pos acc m pb rb (acc ++ (e ∷ []) ++ es, m') here k
                  pb_ok reads)),
          let step : pos + suc (length es) ≡ suc pos + length es = omega arith in rw step k',
        )

    snapshot-Reads :
        (eb : List ℕ) (m : List (VectorId × ℕ))
        → Reads (read_entries (length idx.entries) idx.dim 0 [] []) eb (idx.entries, m)
        → Reads read_any
            (write_header type_flat idx.metric idx.dim ++ (put_u64 (length idx.entries) ++ eb))
            (flat
              (record { metric = idx.metric; dim = idx.dim; entries = idx.entries; id_to_pos = m }))
    unfolding read_any read_flat_body
    snapshot-Reads eb m reads rest =
        let kind : (type_flat == type_flat) ≡ true = ground arith in
        simp (
          append_assoc,
          read_header-Reads width type_flat idx.metric idx.dim (inl refl) storable.dim_pos
              storable.dim_max storable.dim_usize,
          get_usize-Reads width (length idx.entries) "count overflows usize" storable.count_usize,
          kind,
          reads,
          read_any,
          read_flat_body,
          ◌>>=◌,
        )

    -- Where f32 bit patterns and usize behave as documented, a well-formed flat index within the limits of
    -- the format, each of whose payloads its JSON text parses to, that was written as a snapshot reads
    -- back: reading returns an index with the same metric, dimension, entries and positions, and
    -- leaves the bytes behind the snapshot unread.
    pub read_any-write_to :
        (bytes : List ℕ)
        → write_to (flat idx) ≡ ok bytes
        → (rest : List ℕ)
        → (idx' : FlatIndex) × (read_any (bytes ++ rest) ≡ ok (flat idx', rest)) × IsSame idx idx'
    unfolding write_flat
    read_any-write_to bytes h rest =
        let (eb, eb_ok, whole) = write_ok (write_entries idx.entries) _ h in
        let (m', reads, k) =
          read_entries-Reads idx.entries 0 [] [] (λ i. rw (zero-add i)) Knows-start eb_ok in
        (
          record { metric = idx.metric; dim = idx.dim; entries = idx.entries; id_to_pos = m' },
          rw (ok_injective whole) at (snapshot-Reads eb m' reads rest),
          record {
            metric = refl;
            dim = refl;
            entries = refl;
            lookups = Knows-end m' (rw (zero-add (length idx.entries)) at k);
          },
        )
