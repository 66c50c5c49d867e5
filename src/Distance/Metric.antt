-- ===== src/Distance/Metric.antt =====
-- The metrics of distance.rs: the choice of a kernel, and `DistanceMetric::distance`.
use vexdb.Prelude.{List, length, ◌==◌, if◌then◌else◌, not}
use vexdb.Platform.{Platform}
use vexdb.Error.{Outcome, ok, err, dimension_mismatch}
use vexdb.Distance.Scalar.{Terms, dot_scalar, l2_sq_scalar, cosine_terms_scalar}
use vexdb.Distance.Avx.{dot_avx2, l2_sq_avx2, cosine_terms_avx2}

-- Smaller is more similar for every metric.
pub data DistanceMetric : Type 0 where
  cosine l2 dot : DistanceMetric

module _ ⦃p : Platform⦄ where
  open p use {F32, zero_f, one_f, sub_f, mul_f, div_f, neg_f, sqrt_f, eq_f, has_avx2}

  unfoldable pub dot_product : List F32 → List F32 → F32
  unfolding dot_scalar dot_avx2
  dot_product a b = if has_avx2 then dot_avx2 a b else dot_scalar a b

  unfoldable pub l2_distance : List F32 → List F32 → F32
  unfolding l2_sq_scalar l2_sq_avx2
  l2_distance a b = sqrt_f (if has_avx2 then l2_sq_avx2 a b else l2_sq_scalar a b)

  -- A zero vector is at distance one from everything.
  unfoldable pub cosine_from_terms : Terms → F32
  cosine_from_terms (dot_ab, norm_a, norm_b) =
      let denom = mul_f (sqrt_f norm_a) (sqrt_f norm_b) in
      if eq_f denom zero_f then one_f else sub_f one_f (div_f dot_ab denom)

  unfoldable pub cosine_distance : List F32 → List F32 → F32
  unfolding cosine_terms_scalar cosine_terms_avx2 cosine_from_terms
  cosine_distance a b =
      cosine_from_terms (if has_avx2 then cosine_terms_avx2 a b else cosine_terms_scalar a b)

  -- The distance of two slices of one length.
  unfoldable pub measure : DistanceMetric → List F32 → List F32 → F32
  unfolding dot_product l2_distance cosine_distance
  measure l2 a b = l2_distance a b
  measure cosine a b = cosine_distance a b
  measure dot a b = neg_f (dot_product a b)

  unfoldable pub distance : DistanceMetric → List F32 → List F32 → Outcome F32
  unfolding measure
  distance metric a b =
      if not (length a == length b)
      then err (dimension_mismatch (length a) (length b))
      else ok (measure metric a b)
