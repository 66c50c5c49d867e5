-- ===== src/Tests/Lifetime.antt =====
-- A server on an empty drive that takes a point, saves it and starts again.
use vexdb.Prelude.{
  zero, suc, ◌<◌, ◌^◌, get_elem?, ℕ, ◌++◌, true, false, none, some, List, [], ◌∷◌, ◌≡◌, refl, arith,
  String, Bool-cases, inl, inr,
}
use vexdb.Collections.Dict
use vexdb.Collections.Dict.{string_eq}
use vexdb.Distance.Metric.{l2}
use vexdb.Persist.Format
use vexdb.Persist.Any.{flat}
use vexdb.Server.{
  read_only, Collection, AppState, get, flush, finish_flush, save, flush_all, flush_each,
  validate_name, snapshot,
}
use vexdb.Server.Routes.{
  SearchRequest, search, PointInput, create_collection, new_index, register_made, register,
  file_new, upsert_points, all_sized, apply_points, write_back,
}
use vexdb.Server.Start.{started, load, load_each, load_index, tick}
use vexdb.Server.App.{
  error, Request, CreateBody, post_collection, post_points, response, described, upserted,
  fill_create, app,
}
use vexdb.Persist.Write.{write_flat, write_entries, write_header, put_payload, put_f32_slice}
use vexdb.Persist.Format.{to_le_bytes, from_le_bytes}
use vexdb.Distance.Tags.{to_tag, from_tag}
use vexdb.Flat
use vexdb.Flat.{FlatIndex, Entry}
use vexdb.Persist.Sound.{IsSound, read_from-IsSound}
use vexdb.Server.Disk.{IsAtomic, save-IsAtomic}
use vexdb.Server.Durable.{IsServed}
use vexdb.Server.Lifetime.{Served, at_start, then, answers, ticks, load-Served-IsServed}
use vexdb.Persist.FlatRoundTrip.{IsStorable}
use vexdb.Server.Reopen.{search-load}
use vexdb.Server.Restart.{IsBack, load-IsBack}
use vexdb.Server.ReadOnly.{Writes, app-ReadOnly}
use vexdb.Vector
use vexdb.Persist.Read.{
  read_header, read_flat_body, read_entries, get_usize, get_payload, get_f32_vec, f32_chunks,
  read_exact, get_uint,
}
use vexdb.Persist.Any.{read_any, read_from}
use vexdb.Tests.Storage.{Drive, drive, drive-FileLaws, drive-DirLaws}
use vexdb.Tests.Bits.{bits, bits-FloatBits, bits_back, bits-UsizeWidth}

abbrev begin : AppState Drive
begin = record { collections = []; disk = []; is_read_only = false }

abbrev body : CreateBody
body = record {
  dim = 1;
  metric = none;
  index = some "flat";
  m = none;
  ef_construction = none;
  ef_search = none;
}

abbrev creation : Request
creation = post_collection "docs" body

abbrev points : List PointInput
points = record { id = 3; vector = true ∷ []; payload = none } ∷ []

abbrev created : AppState Drive
created = (app drive begin creation).0

abbrev filled : AppState Drive
filled = (app drive created (post_points "docs" points)).0

abbrev end : AppState Drive
end = tick drive filled

began : load drive [] false ≡ started begin
unfolding load load_each
began = refl

created_is :
    (app drive begin creation).1
    ≡ response 201
        (described (record { name = "docs"; index = "flat"; dim = 1; metric = l2; count = 0 }))
unfolding app create_collection fill_create validate_name new_index register_made register flush
    save finish_flush file_new Dict.contains_key Dict.get Dict.insert write_flat write_entries
    write_header Flat.len Flat.new Dict.remove
created_is = refl

filled_is : (app drive created (post_points "docs" points)).1 ≡ response 200 (upserted 1)
unfolding app create_collection fill_create validate_name new_index register_made register flush
    save finish_flush file_new Dict.contains_key Dict.get Dict.insert write_flat write_entries
    write_header Flat.new Dict.remove get upsert_points all_sized apply_points write_back
    Flat.remove Flat.add_with_payload Vector.new
filled_is = refl

abbrev header : List ℕ
header =
    86 ∷ 69 ∷ 88 ∷ 83 ∷ 78 ∷ 65 ∷ 80 ∷ 0 ∷ 1 ∷ 0 ∷ 0 ∷ 0 ∷ 0 ∷ 1 ∷ 0 ∷ 0 ∷ 1 ∷ 0 ∷ 0 ∷ 0 ∷ 0 ∷ 0 ∷ 0
    ∷ 0 ∷ []

abbrev file : List ℕ
file =
    header
    ++ (1 ∷ 0 ∷ 0 ∷ 0 ∷ 0 ∷ 0 ∷ 0 ∷ 0 ∷ 3 ∷ 0 ∷ 0 ∷ 0 ∷ 0 ∷ 0 ∷ 0 ∷ 0 ∷ 0 ∷ 0 ∷ 0 ∷ 0 ∷ 0 ∷ 0 ∷ 128
        ∷ 63 ∷ [])

abbrev kept_index : FlatIndex
kept_index = record {
  metric = l2;
  dim = 1;
  entries = record { id = 3; vector = Vector.from_vec (true ∷ []); payload = none } ∷ [];
  id_to_pos = (3, 0) ∷ [];
}

-- What the tick leaves.
abbrev saved : AppState Drive
saved = record {
  collections = ("docs", record { name = "docs"; index = flat kept_index; dirty = false }) ∷ [];
  disk = (snapshot "docs", file) ∷ [];
  is_read_only = false;
}

ticked : tick drive filled ≡ saved
unfolding app create_collection fill_create validate_name new_index register_made register flush
    save finish_flush file_new Dict.contains_key Dict.get Dict.insert write_flat write_entries
    write_header Flat.new Dict.remove get upsert_points all_sized apply_points write_back
    Flat.remove Flat.add_with_payload Vector.new tick flush_all flush_each put_payload put_f32_slice
    to_le_bytes to_tag
ticked = refl

saved_clean :
    (key : String) (c : Collection) → Dict.get saved.collections key ≡ some c → c.dirty ≡ false
unfolding Dict.get
saved_clean key c h = elim (Bool-cases (string_eq.beq "docs" key)) [
  | inl e ↦ ground (arith, e, h)
  | inr ne ↦ ground (arith, ne, h)
]

abbrev frozen : AppState Drive
frozen = record saved { is_read_only = true }

reloaded : load drive saved.disk true ≡ started frozen
unfolding load load_each load_index validate_name Dict.get Dict.insert read_any read_header
    read_flat_body read_entries get_usize get_payload get_f32_vec f32_chunks read_exact get_uint
    from_le_bytes from_tag Dict.contains_key
reloaded = refl

run : Served drive begin saved
run = rw ticked at (
    then
      (then (then at_start (answers creation 201 _ created_is))
        (answers (post_points "docs" points) 200 _ filled_is))
      ticks)

abbrev stored : Collection
stored = record { name = "docs"; index = flat kept_index; dirty = false }

load-Served-IsServed_example : IsServed drive saved
load-Served-IsServed_example = load-Served-IsServed drive drive-FileLaws [] false began run

stored_there : Dict.get saved.collections "docs" ≡ some stored
unfolding Dict.get
stored_there = refl

load-IsBack_example :
    (c' : Collection) × (Dict.get frozen.collections "docs" ≡ some c')
    × IsBack stored.index c'.index
load-IsBack_example =
    load-IsBack drive drive-FileLaws drive-DirLaws [] false true began run saved_clean reloaded
      "docs" stored stored_there

save-IsAtomic_example :
    IsAtomic drive saved.disk "docs" stored.index (save drive saved.disk "docs" stored.index)
save-IsAtomic_example = save-IsAtomic drive drive-FileLaws saved.disk "docs" stored.index

read_back : read_from file ≡ Format.ok stored.index
unfolding read_any read_header read_flat_body read_entries get_usize get_payload get_f32_vec
    f32_chunks read_exact get_uint from_le_bytes from_tag Dict.contains_key Dict.get Dict.insert
read_back = refl

read_from-IsSound_example : IsSound stored.index
read_from-IsSound_example = read_from-IsSound file stored.index read_back

app-ReadOnly_example :
    ((app drive frozen creation).0 ≡ frozen)
    × (Writes creation → (app drive frozen creation).1 ≡ response 403 (error read_only))
    × (tick drive frozen ≡ frozen)
app-ReadOnly_example = app-ReadOnly drive frozen refl creation

kept_ids : (pos : ℕ) (e : Entry) → get_elem? kept_index.entries pos ≡ some e → e.id < 2 ^ 64
kept_ids zero e at = ground (arith, at)
kept_ids (suc pos) e at = cc

kept_index-IsStorable : IsStorable kept_index
kept_index-IsStorable = record {
  ids = kept_ids;
  payloads = λ pos e at. bits_back e.payload;
  dim_pos = omega arith;
  dim_max = omega arith;
  dim_usize = omega arith;
  count_usize = omega arith;
}

abbrev question : SearchRequest
question = record { query = false ∷ []; k = 2; ef = none; filter = none; with_payload = true }

search-load_example : search frozen "docs" question ≡ search saved "docs" question
search-load_example =
    search-load drive drive-FileLaws drive-DirLaws bits-FloatBits bits-UsizeWidth [] false true
      began run saved_clean reloaded "docs" stored kept_index stored_there refl
      kept_index-IsStorable question
