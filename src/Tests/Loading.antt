-- ===== src/Tests/Loading.antt =====
-- Loading a file of two lines with the same id.
use vexdb.Prelude.{false, Option, none, some, List, [], ◌∷◌, String, refl}
use vexdb.Distance.Metric.{l2}
use vexdb.Flat
use vexdb.Cli.{Record, World, build_index}
use vexdb.Cli.Load.{Agrees, entries_of, build_index-entries_of}
use vexdb.Tests.Numbers.{numbers}

abbrev line : Record
line = record { id = 7; vector = 1 ∷ 2 ∷ []; payload = none }

abbrev lines : List (Option String)
lines = some "a" ∷ some "b" ∷ []

abbrev world : World (Unit {0})
world = record {
  open_lines = λ disk path. some lines;
  read_file = λ disk path. none;
  is_blank = λ s. false;
  fields = λ s. s ∷ [];
  record_of = λ s. some line;
  f32_of = λ s. none;
  usize_of = λ s. none;
  of_int_f = λ n. n;
}

build_index-entries_of_example :
    Agrees world
      (Flat.new 2 l2)
      (entries_of world 2 (λ id. false) 0 lines)
      (build_index world tt "records" 2 l2)
build_index-entries_of_example = build_index-entries_of world tt "records" 2 l2 lines refl
