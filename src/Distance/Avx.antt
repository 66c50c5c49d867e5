-- ===== src/Distance/Avx.antt =====
-- The AVX2 kernels of distance.rs (`mod simd_x86`). A 256-bit register is its eight lanes, an
-- intrinsic the operation on each lane.
use vexdb.Prelude.{ℕ, zero, suc, ◌+◌, ◌*◌, ◌/◌, List, length, drop, get_or}
use vexdb.Platform.{Platform}
use vexdb.Distance.Scalar.{fold_rest, dot_step, l2_step, terms_step, Terms}

pub record M256 ⦃p : Platform⦄ : Type 0 where
  pub l0 : p.F32
  pub l1 : p.F32
  pub l2 : p.F32
  pub l3 : p.F32
  pub l4 : p.F32
  pub l5 : p.F32
  pub l6 : p.F32
  pub l7 : p.F32

module _ ⦃p : Platform⦄ where
  open p use {F32, zero_f, add_f, sub_f, fma_f}

  abbrev pub mm256_set1 : F32 → M256
  mm256_set1 x = record { l0 = x; l1 = x; l2 = x; l3 = x; l4 = x; l5 = x; l6 = x; l7 = x }

  -- `_mm256_loadu_ps(a.as_ptr().add(i))`, which the loops call only where eight elements remain.
  unfoldable pub mm256_loadu_ps : List F32 → ℕ → M256
  mm256_loadu_ps a i =
      let at = λ (j : ℕ). get_or a (i + j) zero_f in
      record {
        l0 = at 0;
        l1 = at 1;
        l2 = at 2;
        l3 = at 3;
        l4 = at 4;
        l5 = at 5;
        l6 = at 6;
        l7 = at 7;
      }

  unfoldable pub mm256_fmadd_ps : M256 → M256 → M256 → M256
  mm256_fmadd_ps x y z = record {
    l0 = fma_f x.l0 y.l0 z.l0;
    l1 = fma_f x.l1 y.l1 z.l1;
    l2 = fma_f x.l2 y.l2 z.l2;
    l3 = fma_f x.l3 y.l3 z.l3;
    l4 = fma_f x.l4 y.l4 z.l4;
    l5 = fma_f x.l5 y.l5 z.l5;
    l6 = fma_f x.l6 y.l6 z.l6;
    l7 = fma_f x.l7 y.l7 z.l7;
  }

  unfoldable pub mm256_sub_ps : M256 → M256 → M256
  mm256_sub_ps x y = record {
    l0 = sub_f x.l0 y.l0;
    l1 = sub_f x.l1 y.l1;
    l2 = sub_f x.l2 y.l2;
    l3 = sub_f x.l3 y.l3;
    l4 = sub_f x.l4 y.l4;
    l5 = sub_f x.l5 y.l5;
    l6 = sub_f x.l6 y.l6;
    l7 = sub_f x.l7 y.l7;
  }

  -- The halves are added, then the upper two lanes to the lower two, then lane 1 to lane 0.
  unfoldable pub hsum256 : M256 → F32
  hsum256 v =
      add_f (add_f (add_f v.l0 v.l4) (add_f v.l2 v.l6)) (add_f (add_f v.l1 v.l5) (add_f v.l3 v.l7))

  -- `while i < n { ...; i += 8 }`: `rounds` is the number of rounds left.
  unfoldable pub dot_loop : ℕ → ℕ → List F32 → List F32 → M256 → M256
  dot_loop zero i a b acc = acc
  dot_loop (suc rounds) i a b acc =
      let va = mm256_loadu_ps a i in
      let vb = mm256_loadu_ps b i in dot_loop rounds (i + 8) a b (mm256_fmadd_ps va vb acc)

  unfoldable pub dot_avx2 : List F32 → List F32 → F32
  unfolding mm256_loadu_ps mm256_fmadd_ps hsum256 dot_loop fold_rest
  dot_avx2 a b =
      let n = length a / 8 * 8 in
      let acc = dot_loop (length a / 8) 0 a b (mm256_set1 zero_f) in
      fold_rest dot_step (hsum256 acc) (drop n a) (drop n b)

  unfoldable pub l2_sq_loop : ℕ → ℕ → List F32 → List F32 → M256 → M256
  l2_sq_loop zero i a b acc = acc
  l2_sq_loop (suc rounds) i a b acc =
      let va = mm256_loadu_ps a i in
      let vb = mm256_loadu_ps b i in
      let d = mm256_sub_ps va vb in l2_sq_loop rounds (i + 8) a b (mm256_fmadd_ps d d acc)

  unfoldable pub l2_sq_avx2 : List F32 → List F32 → F32
  unfolding mm256_loadu_ps mm256_fmadd_ps mm256_sub_ps hsum256 l2_sq_loop fold_rest
  l2_sq_avx2 a b =
      let n = length a / 8 * 8 in
      let acc = l2_sq_loop (length a / 8) 0 a b (mm256_set1 zero_f) in
      fold_rest l2_step (hsum256 acc) (drop n a) (drop n b)

  unfoldable pub cosine_terms_loop :
      ℕ → ℕ → List F32 → List F32 → M256 → M256 → M256 → M256 × M256 × M256
  cosine_terms_loop zero i a b dot_acc na_acc nb_acc = (dot_acc, na_acc, nb_acc)
  cosine_terms_loop (suc rounds) i a b dot_acc na_acc nb_acc =
      let va = mm256_loadu_ps a i in
      let vb = mm256_loadu_ps b i in
      cosine_terms_loop rounds (i + 8) a b (mm256_fmadd_ps va vb dot_acc)
        (mm256_fmadd_ps va va na_acc) (mm256_fmadd_ps vb vb nb_acc)

  unfoldable pub cosine_terms_avx2 : List F32 → List F32 → Terms
  unfolding mm256_loadu_ps mm256_fmadd_ps hsum256 cosine_terms_loop fold_rest
  cosine_terms_avx2 a b =
      let n = length a / 8 * 8 in
      let zeros = mm256_set1 zero_f in
      let (dot_acc, na_acc, nb_acc) = cosine_terms_loop (length a / 8) 0 a b zeros zeros zeros in
      let sums : Terms = (hsum256 dot_acc, hsum256 na_acc, hsum256 nb_acc) in
      fold_rest terms_step sums (drop n a) (drop n b)
