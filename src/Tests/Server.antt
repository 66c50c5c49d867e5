-- ===== src/Tests/Server.antt =====
-- A server with one collection, and the theorems of the server at it.
use vexdb.Prelude.{ℕ, true, false, none, some, List, [], ◌∷◌, ◌≡◌, refl, ◌⊎◌}
use vexdb.Collections.Dict
use vexdb.Collections.Dict.{string_eq}
use vexdb.Distance.Metric.{l2}
use vexdb.Flat.{FlatIndex}
use vexdb.Persist.Any.{flat}
use vexdb.Server.{ApiError, Files, Collection, AppState, done, failed, get}
use vexdb.Server.Routes.{CreateCollection, PointInput, create_collection, upsert_points, update}
use vexdb.Server.Upsert.{Accepts, IsUpserted, upsert_points-IsUpserted}
use vexdb.Server.Registry.{IsNamed}
use vexdb.Server.Run.{at_start, then, create, Reached-IsNamed}
use vexdb.Tests.Numbers.{numbers}
use vexdb.Tests.FlatIndex.{two, two-IsValid}

-- A disk that counts the calls, all of which succeed.
abbrev files : Files ℕ
files = record {
  create = λ d f. (d, true);
  write = λ d f bytes. (d, true);
  rename = λ d f g. (d, true);
  remove_file = λ d f. (d, true);
  exists = λ d f. true;
  read = λ d f. none;
  create_dir_all = λ d. (d, true);
  read_dir = λ d. some [];
}

abbrev docs : Collection
docs = record { name = "docs"; index = flat two; dirty = false }

abbrev start : AppState ℕ
start = record { collections = []; disk = 0; is_read_only = false }

abbrev serving : AppState ℕ
serving = record { collections = ("docs", docs) ∷ []; disk = 0; is_read_only = false }

-- One point replaces an entry, the other is new.
abbrev batch : List PointInput
batch =
    record { id = 7; vector = 2 ∷ 2 ∷ []; payload = none }
    ∷ record { id = 8; vector = 3 ∷ 3 ∷ []; payload = none }
    ∷ []

docs_found : get serving "docs" ≡ some docs
unfolding get Dict.get
docs_found = refl

upsert_points-IsUpserted_example :
    ((¬ Accepts serving two.dim batch)
      × ((e : ApiError) × (upsert_points serving "docs" batch ≡ (serving, failed e))))
    ⊎ ((idx' : FlatIndex) × (upsert_points serving "docs" batch
          ≡ (update serving "docs" (record docs { index = flat idx'; dirty = true }), done 2))
        × IsUpserted two batch idx')
upsert_points-IsUpserted_example =
    upsert_points-IsUpserted serving "docs" batch docs two docs_found refl two-IsValid

start-IsNamed : IsNamed start
unfolding IsNamed get Dict.get
start-IsNamed key c h = cc

abbrev request : CreateCollection
request = record {
  dim = 2;
  metric = l2;
  index = "flat";
  m = 16;
  ef_construction = 200;
  ef_search = 64;
}

abbrev created : AppState ℕ
created = (create_collection files start "docs" request).0

Reached-IsNamed_example : IsNamed created
Reached-IsNamed_example =
    Reached-IsNamed files start-IsNamed (then at_start (create "docs" request))
