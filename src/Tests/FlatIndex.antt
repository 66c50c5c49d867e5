-- ===== src/Tests/FlatIndex.antt =====
-- Small flat indexes, and the theorems of the exact index at them.
use vexdb.Prelude.{ℕ, none, some, List, [], ◌∷◌, ◌≡◌, ◌≢◌, refl, arith, map, ◌⊎◌}
use vexdb.Error.{VectorId, ok, err, dimension_mismatch, duplicate_id}
use vexdb.Vector
use vexdb.Vector.{Vector}
use vexdb.Distance.Metric.{l2}
use vexdb.Collections.Dict
use vexdb.Collections.Dict.{nat_eq}
use vexdb.Collections.Heap.TopK.{IsTopK}
use vexdb.Flat.{
  FlatIndex, HeapItem, new, add_with_payload, remove, contains, search_filtered, to_result,
  cmp_item, payload, vector,
}
use vexdb.Flat.Invariant.{IsValid, new-IsValid}
use vexdb.Flat.Add.{appended, add-appended, add-IsValid}
use vexdb.Flat.Remove.{stored, IsWithout, remove-IsWithout}
use vexdb.Flat.View.{add_cases, payload-stored}
use vexdb.Flat.Search.{candidates, search-IsTopK}
use vexdb.Tests.Numbers.{numbers, numbers-FloatOrder}
use mathlib.Core.Option

abbrev pub point : ℕ → ℕ → Vector
point a b = Vector.from_vec (a ∷ b ∷ [])

abbrev empty : FlatIndex
empty = record { metric = l2; dim = 2; entries = []; id_to_pos = [] }

abbrev one : FlatIndex
one = appended empty 7 (point 1 2) (some 5)

abbrev pub two : FlatIndex
two = appended one 9 (point 4 4) none

one-IsValid : IsValid one
unfolding new Dict.get
one-IsValid =
    add-IsValid empty 7 (point 1 2) (some 5) (new-IsValid 2 l2)
      (add-appended empty 7 (point 1 2) (some 5) refl refl)

pub two-IsValid : IsValid two
unfolding new Dict.get Dict.insert
two-IsValid =
    add-IsValid one 9 (point 4 4) none one-IsValid (add-appended one 9 (point 4 4) none refl refl)

search-IsTopK_example :
    (best : List HeapItem) × (search_filtered two (4 ∷ 3 ∷ []) 1 none ≡ ok (map to_result best))
    × IsTopK cmp_item 1 (candidates l2 (4 ∷ 3 ∷ []) none two.entries) best
search-IsTopK_example =
    search-IsTopK numbers-FloatOrder two two-IsValid (4 ∷ 3 ∷ []) 1 none (omega arith) refl

remove-IsWithout_example :
    (idx' : FlatIndex) × (remove two 7 ≡ ok (idx', contains two 7)) × IsWithout two 7 idx'
remove-IsWithout_example = remove-IsWithout two two-IsValid 7

payload-stored_example :
    (payload two 7 ≡ ok (Option.bind (stored two 7) (λ e. e.payload)))
    × (vector two 7 ≡ ok (Option.map (λ e. e.vector) (stored two 7)))
payload-stored_example = payload-stored two two-IsValid 7

add_cases_example :
    ((Vector.dim (point 1 1) ≢ 2)
      × (add_with_payload two 9 (point 1 1) none ≡ err (dimension_mismatch 2 2)))
    ⊎ (((Vector.dim (point 1 1) ≡ 2)
          × (stored two 9 ≢ none)
          × (add_with_payload two 9 (point 1 1) none ≡ err (duplicate_id 9)))
        ⊎ ((Vector.dim (point 1 1) ≡ 2)
            × (stored two 9 ≡ none)
            × ((idx' : FlatIndex) × (add_with_payload two 9 (point 1 1) none ≡ ok idx')
                × IsValid idx'
                × (stored idx' 9 ≡ some (record { id = 9; vector = point 1 1; payload = none }))
                × ((j : VectorId) → j ≢ 9 → stored idx' j ≡ stored two j))))
add_cases_example = add_cases two two-IsValid 9 (point 1 1) none
