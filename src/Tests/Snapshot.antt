-- ===== src/Tests/Snapshot.antt =====
-- The snapshot of a small flat index.
use vexdb.Prelude.{
  ℕ, zero, suc, ◌<◌, ◌^◌, true, false, some, Option, String, List, [], ◌∷◌, ◌++◌, ◌≡◌, refl, arith,
  get_elem?,
}
use vexdb.Vector
use vexdb.Vector.{Vector}
use vexdb.Distance.Metric.{cosine}
use vexdb.Collections.Dict
use vexdb.Collections.Dict.{nat_eq}
use vexdb.Flat.{FlatIndex, Entry, new}
use vexdb.Flat.Invariant.{IsValid, new-IsValid}
use vexdb.Flat.Add.{appended, add-appended, add-IsValid}
use vexdb.Persist.Format.{ok, to_le_bytes}
use vexdb.Distance.Tags.{to_tag}
use vexdb.Persist.Write.{write_flat, write_entries, put_payload, put_f32_slice, write_header}
use vexdb.Persist.Any.{flat, read_any, write_to}
use vexdb.Persist.FlatRoundTrip.{IsStorable, IsSame, read_any-write_to}
use vexdb.Attempt
use vexdb.Wasm.{
  Inner, Texts, search, export_ids, export_vectors, snapshot_bytes, from_snapshot, stats,
}
use vexdb.Wasm.Reload.{from_snapshot-snapshot_bytes}
use vexdb.Tests.Bits.{bits, bits-FloatBits, bits_back, bits-UsizeWidth}

abbrev empty : FlatIndex
empty = record { metric = cosine; dim = 2; entries = []; id_to_pos = [] }

abbrev pub one : FlatIndex
one = appended empty 7 (Vector.from_vec (true ∷ false ∷ [])) (some true)

pub one-IsValid : IsValid one
unfolding new Dict.get
one-IsValid =
    let v = Vector.from_vec (true ∷ false ∷ []) in
    add-IsValid empty 7 v (some true) (new-IsValid 2 cosine)
      (add-appended empty 7 v (some true) refl refl)

one_ids : (pos : ℕ) (e : Entry) → get_elem? one.entries pos ≡ some e → e.id < 2 ^ 64
one_ids zero e h = ground (arith, h)
one_ids (suc pos) e h = cc

pub one-IsStorable : IsStorable one
one-IsStorable = record {
  ids = one_ids;
  payloads = λ pos e at. bits_back e.payload;
  dim_pos = omega arith;
  dim_max = omega arith;
  dim_usize = omega arith;
  count_usize = omega arith;
}

-- The bytes that `write_flat` writes for it.
abbrev one_bytes : List ℕ
one_bytes =
    86 ∷ 69 ∷ 88 ∷ 83 ∷ 78 ∷ 65 ∷ 80 ∷ 0 ∷ 1 ∷ 0 ∷ 0 ∷ 0 ∷ 0 ∷ 0 ∷ 0 ∷ 0 ∷ 2 ∷ 0 ∷ 0 ∷ 0 ∷ 0 ∷ 0 ∷ 0
    ∷ 0 ∷ 1 ∷ 0 ∷ 0 ∷ 0 ∷ 0 ∷ 0 ∷ 0 ∷ 0 ∷ 7 ∷ 0 ∷ 0 ∷ 0 ∷ 0 ∷ 0 ∷ 0 ∷ 0 ∷ 1 ∷ 0 ∷ 0 ∷ 0 ∷ 49 ∷ 0 ∷ 0
    ∷ 128 ∷ 63 ∷ 0 ∷ 0 ∷ 0 ∷ 0 ∷ []

pub one_written : write_to (flat one) ≡ ok one_bytes
unfolding write_flat write_entries put_payload put_f32_slice write_header to_le_bytes to_tag
one_written = refl

read_any-write_to_example :
    (idx' : FlatIndex) × (read_any (one_bytes ++ (1 ∷ [])) ≡ ok (flat idx', 1 ∷ []))
    × IsSame one idx'
read_any-write_to_example =
    read_any-write_to bits-FloatBits bits-UsizeWidth one one-IsValid one-IsStorable one_bytes
      one_written (1 ∷ [])

one_snapshot : snapshot_bytes (record { index = flat one }) ≡ Attempt.ok one_bytes
unfolding snapshot_bytes
one_snapshot = rw one_written refl

from_snapshot-snapshot_bytes_example :
    (inner : Inner) × (from_snapshot one_bytes ≡ Attempt.ok inner)
    × ((texts : Texts) (query : List bits.F32) (k : ℕ) (ef : Option ℕ) (filter_json : Option String)
        → search texts inner query k ef filter_json
          ≡ search texts (record { index = flat one }) query k ef filter_json)
    × (stats inner ≡ stats (record { index = flat one }))
    × (export_ids inner ≡ export_ids (record { index = flat one }))
    × (export_vectors inner ≡ export_vectors (record { index = flat one }))
from_snapshot-snapshot_bytes_example =
    from_snapshot-snapshot_bytes bits-FloatBits bits-UsizeWidth one one-IsValid one-IsStorable
      one_bytes one_snapshot
