-- ===== src/Wasm/Reload.antt =====
-- A flat index that went through a snapshot answers as before.
use vexdb.Prelude.{ℕ, arith, Option, List, [], ◌∷◌, String, ◌≡◌, refl, Option-cases, inl, inr}
use mathlib.Core.List.{append-nil}
use vexdb.Platform.{Platform}
use vexdb.Platform.Laws.{FloatBits, UsizeWidth}
use vexdb.Error
use vexdb.Error.{VectorId, Outcome}
use vexdb.Index.{SearchResult}
use vexdb.Payload.{Filter}
use vexdb.Collections.Dict
use vexdb.Collections.Dict.{nat_eq}
use vexdb.Flat
use vexdb.Flat.{FlatIndex}
use vexdb.Flat.Invariant.{IsValid}
use vexdb.Persist.Format
use vexdb.Persist.Format.{Result}
use vexdb.Persist.Any
use vexdb.Persist.Any.{AnyIndex, flat}
use vexdb.Persist.FlatRoundTrip.{IsStorable, IsSame, read_any-write_to}
use vexdb.Attempt
use vexdb.Attempt.{Attempt, ok, lift, ◌>>=◌}
use vexdb.Wasm.{
  Inner, Texts, engine, snapshot, from_snapshot, snapshot_bytes, search, parse_filter, to_hits,
  export_ids, export_vectors, stats,
}

module _ ⦃p : Platform⦄ where
  open p use {F32, Value}

  abbrev inner_of : FlatIndex → Inner
  inner_of idx = record { index = flat idx }

  bind_same :
      {E A B : Type 0} (m : Attempt E A) (f g : A → Attempt E B)
      → ((a : A) → f a ≡ g a)
      → (m >>= f) ≡ (m >>= g)
  bind_same (ok a) f g h = h a
  bind_same (Attempt.err e) f g h = refl
  bind_same Attempt.panic f g h = refl
  bind_same Attempt.stuck f g h = refl

  from_snapshot_loaded :
      (bytes : List ℕ) (index : AnyIndex) (rest : List ℕ)
      → Any.read_any bytes ≡ Format.ok (index, rest)
      → from_snapshot bytes ≡ ok (record { index = index })
  unfolding from_snapshot
  from_snapshot_loaded bytes index rest h =
      simp (from_snapshot, Any.read_from, Attempt.lift_snapshot, ◌>>=◌, h)

  written :
      (r : Result (List ℕ)) {bytes : List ℕ}
      → Attempt.lift_snapshot snapshot r ≡ ok bytes
      → r ≡ Format.ok bytes
  written (Format.ok bs) h = ground (arith, h)
  written (Format.err e) h = cc

  module _ (idx idx' : FlatIndex) (same : IsSame idx idx') where
    payload_same : (id : VectorId) → Flat.payload idx' id ≡ Flat.payload idx id
    unfolding Flat.payload
    payload_same id = elim (Option-cases (Dict.get idx.id_to_pos id)) [
      | inl absent ↦ simp (Flat.payload, same.lookups id, absent)
      | inr (pos, at) ↦ simp (Flat.payload, same.lookups id, at, same.entries)
    ]

    to_hits_same :
        (results : List SearchResult)
        → to_hits (inner_of idx') results ≡ to_hits (inner_of idx) results
    unfolding to_hits
    to_hits_same [] = refl
    to_hits_same (r ∷ rs) = rw (payload_same r.id, to_hits_same rs) refl

    search_same :
        (query : List F32) (k : ℕ) (filter : Option Filter)
        → Flat.search_filtered idx' query k filter ≡ Flat.search_filtered idx query k filter
    unfolding Flat.search_filtered
    search_same query k filter = rw (same.metric, same.dim, same.entries) refl

    hits_same :
        (outcome outcome' : Outcome (List SearchResult))
        → outcome' ≡ outcome
        → (lift engine outcome' >>= λ results. lift engine (to_hits (inner_of idx') results))
          ≡ (lift engine outcome >>= λ results. lift engine (to_hits (inner_of idx) results))
    hits_same (Error.ok results) outcome' e = rw (e, to_hits_same results) refl
    hits_same (Error.err failure) outcome' e = rw e refl
    hits_same Error.panic outcome' e = rw e refl
    hits_same Error.stuck outcome' e = rw e refl

    answers_same :
        (texts : Texts) (query : List F32) (k : ℕ) (ef : Option ℕ) (filter_json : Option String)
        → search texts (inner_of idx') query k ef filter_json
          ≡ search texts (inner_of idx) query k ef filter_json
    unfolding search
    answers_same texts query k ef filter_json =
        bind_same (parse_filter texts filter_json) _ _ (λ filter.
          hits_same (Flat.search_filtered idx query k filter) _ (search_same query k filter))

  -- An index that is saved and loaded in the browser answers as before. Where f32 bit patterns and
  -- usize behave as documented, and a well-formed flat index within the limits of the format, each of
  -- whose payloads its JSON text parses to, was written by `snapshot_bytes`: `from_snapshot` of the bytes succeeds, and the loaded index gives
  -- the same outcome for every search, and the same stats, ids and vectors.
  pub from_snapshot-snapshot_bytes :
      FloatBits p
      → UsizeWidth p
      → (idx : FlatIndex) → IsValid idx
      → IsStorable idx
      → (bytes : List ℕ) → snapshot_bytes (record { index = flat idx }) ≡ ok bytes
      → (inner : Inner) × (from_snapshot bytes ≡ ok inner)
        × ((texts : Texts) (query : List F32) (k : ℕ) (ef : Option ℕ) (filter_json : Option String)
            → search texts inner query k ef filter_json
              ≡ search texts (record { index = flat idx }) query k ef filter_json)
        × (stats inner ≡ stats (record { index = flat idx }))
        × (export_ids inner ≡ export_ids (record { index = flat idx }))
        × (export_vectors inner ≡ export_vectors (record { index = flat idx }))
  unfolding from_snapshot snapshot_bytes stats export_ids export_vectors Flat.iter_live Flat.len
  from_snapshot-snapshot_bytes bits width idx w storable bytes h =
      let (idx', reads, same) =
        read_any-write_to bits width idx w storable bytes (written (Any.write_to (flat idx)) h)
          [] in
      let loaded : Any.read_any bytes ≡ Format.ok (flat idx', []) = rw append-nil at reads in
      (
        inner_of idx',
        from_snapshot_loaded bytes (flat idx') [] loaded,
        answers_same idx idx' same,
        rw (same.metric, same.dim, same.entries) refl,
        rw same.entries refl,
        rw same.entries refl,
      )
