-- ===== src/Distance/Tags.antt =====
-- The byte of a metric in a snapshot, and the names that `DistanceMetric::from_str` accepts.
use Prim.Native.String.{String}
use Prim.Native.Char.{code}
use vexdb.Prelude.{
  ℕ, ◌+◌, Bool, true, false, Option, none, some, List, [], ◌∷◌, ◌≡◌, refl, arith, map, ◌==◌, leb,
  ◌&&◌, ◌||◌, if◌then◌else◌,
}
use vexdb.Distance.Metric.{DistanceMetric, cosine, l2, dot}

unfoldable pub to_tag : DistanceMetric → ℕ
to_tag cosine = 0
to_tag l2 = 1
to_tag dot = 2

unfoldable pub from_tag : ℕ → Option DistanceMetric
from_tag tag =
    if tag == 0
    then some cosine
    else if tag == 1
    then some l2
    else if tag == 2
    then some dot
    else none

-- The code points of a text.
abbrev pub codes : String → List ℕ
codes String.[] = []
codes (String.◌∷◌ c s) = code c ∷ codes s

abbrev to_ascii_lowercase : List ℕ → List ℕ
to_ascii_lowercase = map (λ c. if leb b'A' c && leb c b'Z' then c + 32 else c)

abbrev same : List ℕ → List ℕ → Bool
same [] [] = true
same (x ∷ xs) (y ∷ ys) = x == y && same xs ys
same _ _ = false

-- `none` is the error "unknown distance metric".
unfoldable pub from_str : List ℕ → Option DistanceMetric
from_str s =
    let name = to_ascii_lowercase s in
    if same name (codes "cosine")
    then some cosine
    else if same name (codes "l2") || same name (codes "euclidean")
    then some l2
    else if same name (codes "dot") || same name (codes "ip") || same name (codes "inner_product")
    then some dot
    else none

-- A tag reads back as the metric that it was written for, and no other byte reads as a metric.
pub from_tag_iff : (m : DistanceMetric) (tag : ℕ) → (from_tag tag ≡ some m) → tag ≡ to_tag m
unfolding from_tag to_tag
from_tag_iff m tag h = ground arith

pub from_tag-to_tag : (m : DistanceMetric) → from_tag (to_tag m) ≡ some m
unfolding from_tag to_tag
from_tag-to_tag cosine = refl
from_tag-to_tag _ = refl
