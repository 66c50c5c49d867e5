-- ===== src/Distance/Scalar.antt =====
-- The scalar kernels of distance.rs: eight accumulators over whole chunks, their sum, and the rest
-- of the slices added one by one.
use vexdb.Prelude.{ℕ, zero, suc, ◌-◌, ◌/◌, ◌%◌, List, [], ◌∷◌, map, length, take, drop, replicate}
use vexdb.Platform.{Platform}

abbrev pub lanes : ℕ
lanes = 8

-- `n` chunks of `lanes` elements each, from the front.
unfoldable pub chunks_exact {ℓ} : {A : Type ℓ} → ℕ → List A → List (List A)
chunks_exact zero xs = []
chunks_exact (suc n) xs = take lanes xs ∷ chunks_exact n (drop lanes xs)

module _ {ℓ κ} {S : Type ℓ} {A : Type κ} (step : S → A → A → S) where
  -- `for l in 0..LANES { acc[l] = step(acc[l], ca[l], cb[l]) }`
  unfoldable pub step_lanes : List S → List A → List A → List S
  step_lanes (s ∷ acc) (x ∷ ca) (y ∷ cb) = step s x y ∷ step_lanes acc ca cb
  step_lanes acc ca cb = acc

  unfoldable pub fold_chunks : List S → List (List A) → List (List A) → List S
  fold_chunks acc (ca ∷ cas) (cb ∷ cbs) = fold_chunks (step_lanes acc ca cb) cas cbs
  fold_chunks acc cas cbs = acc

  -- The loop over the remainders, which stops with the shorter one.
  unfoldable pub fold_rest : S → List A → List A → S
  fold_rest s (x ∷ xs) (y ∷ ys) = fold_rest (step s x y) xs ys
  fold_rest s xs ys = s

  -- The accumulators after the whole chunks of both slices.
  pub accumulate : S → List A → List A → List S
  unfolding chunks_exact step_lanes fold_chunks
  accumulate start a b =
      fold_chunks (replicate lanes start) (chunks_exact (length a / lanes) a)
        (chunks_exact (length b / lanes) b)

  -- `split_at(len - len % LANES).1`
  abbrev pub remainder : List A → List A
  remainder a = drop (length a - length a % lanes) a

module _ ⦃p : Platform⦄ where
  open p use {F32, zero_f, add_f, sub_f, mul_f, sum_start_f}

  unfoldable pub sum_f : F32 → List F32 → F32
  sum_f s [] = s
  sum_f s (x ∷ xs) = sum_f (add_f s x) xs

  abbrev pub dot_step : F32 → F32 → F32 → F32
  dot_step s x y = add_f s (mul_f x y)

  abbrev pub l2_step : F32 → F32 → F32 → F32
  l2_step s x y = let d = sub_f x y in add_f s (mul_f d d)

  unfoldable pub dot_scalar : List F32 → List F32 → F32
  unfolding accumulate fold_rest sum_f
  dot_scalar a b =
      let acc = accumulate dot_step zero_f a b in
      fold_rest dot_step (sum_f sum_start_f acc) (remainder dot_step a) (remainder dot_step b)

  unfoldable pub l2_sq_scalar : List F32 → List F32 → F32
  unfolding accumulate fold_rest sum_f
  l2_sq_scalar a b =
      let acc = accumulate l2_step zero_f a b in
      fold_rest l2_step (sum_f sum_start_f acc) (remainder l2_step a) (remainder l2_step b)

  -- The dot product and the squared norms of both slices.
  abbrev pub Terms : Type 0
  Terms = F32 × F32 × F32

  abbrev pub terms_step : Terms → F32 → F32 → Terms
  terms_step (dot_ab, norm_a, norm_b) x y =
      (add_f dot_ab (mul_f x y), add_f norm_a (mul_f x x), add_f norm_b (mul_f y y))

  unfoldable pub cosine_terms_scalar : List F32 → List F32 → Terms
  unfolding accumulate fold_rest sum_f
  cosine_terms_scalar a b =
      let acc = accumulate terms_step (zero_f, zero_f, zero_f) a b in
      let sums : Terms = (
        sum_f sum_start_f (map (λ t. t.0) acc),
        sum_f sum_start_f (map (λ t. t.1) acc),
        sum_f sum_start_f (map (λ t. t.2) acc),
      ) in
      fold_rest terms_step sums (remainder terms_step a) (remainder terms_step b)
