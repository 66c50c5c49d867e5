-- ===== src/Hnsw/Level.antt =====
-- `HnswIndex::sample_level`: the level of a new node, from an inline splitmix64.
use Prim.Native.Nat.{bit_xor}
use vexdb.Prelude.{ℕ, ◌+◌, ◌*◌, ◌/◌, ◌%◌, ◌^◌}
use vexdb.Platform.{Platform}
use vexdb.Hnsw.{HnswIndex}

abbrev pub u64_mod : ℕ
u64_mod = 2 ^ 64

-- `z ^ (z >> s)`
abbrev pub xor_shift : ℕ → ℕ → ℕ
xor_shift z s = bit_xor z (z / 2 ^ s)

-- The step of the state, and the number drawn from the new state.
unfoldable pub next_state : ℕ → ℕ
next_state rng_state = (rng_state + 0x9e37_79b9_7f4a_7c15) % u64_mod

unfoldable pub mix : ℕ → ℕ
mix state =
    let z₁ = xor_shift state 30 * 0xbf58_476d_1ce4_e5b9 % u64_mod in
    let z₂ = xor_shift z₁ 27 * 0x94d0_49bb_1331_11eb % u64_mod in xor_shift z₂ 31

module _ ⦃p : Platform⦄ where
  open p use {div_d, mul_d, max_d, neg_d, ln_d, one_d, min_positive_d, of_int_d, as_usize_d}

  -- floor(-ln(u) / ln(m)) for the drawn number.
  unfoldable pub level_of : ℕ → ℕ → ℕ
  level_of m z =
      let u = max_d (div_d (of_int_d (z / 2 ^ 11)) (of_int_d (2 ^ 53))) min_positive_d in
      let ml = div_d one_d (ln_d (of_int_d m)) in as_usize_d (mul_d (neg_d (ln_d u)) ml)

  unfoldable pub sample_level : HnswIndex → HnswIndex × ℕ
  sample_level idx =
      let state = next_state idx.rng_state in
      (record idx { rng_state = state }, level_of idx.config.m (mix state))
