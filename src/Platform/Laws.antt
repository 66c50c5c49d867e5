-- ===== src/Platform/Laws.antt =====
-- Documented behaviour of the machine that theorems rely on, by name, and what a payload has to be for
-- its text to keep it.
use Prim.Native.Nat.Ordering.{lt}
use vexdb.Prelude.{ℕ, ◌<◌, ◌^◌, true, Option, some, List, ◌≡◌}
use vexdb.Prelude.Order.{IsTotalOrder}
use vexdb.Platform.{Platform}

module _ (p : Platform) where
  open p use {F32, lt_f, total_cmp, mul_f, sub_f, fma_f, to_bits, from_bits}

  -- `f32::total_cmp` is a total order on bit patterns, and `<` agrees with it where it holds
  -- (`<` is false at a NaN and between the two zeros).
  pub record FloatOrder : Type 0 where
    pub total : IsTotalOrder total_cmp
    pub lt_total : (a b : F32) → lt_f a b ≡ true → total_cmp a b ≡ lt

  -- The bit pattern of an f32 is a u32, and determines it.
  pub record FloatBits : Type 0 where
    pub bits_bound : (a : F32) → to_bits a < 2 ^ 32
    pub from-to_bits : (a : F32) → from_bits (to_bits a) ≡ a

  -- The text that serde_json prints for this payload parses to it. This is a condition on a payload and
  -- no law of serde_json: without its feature `float_roundtrip`, which the build does not ask for, the
  -- text of a float may parse to another one.
  abbrev pub ParsesBack : Option p.Value → Type 0
  ParsesBack payload =
      (v : p.Value) (bs : List ℕ)
      → payload ≡ some v
      → p.to_vec_v v ≡ some bs
      → p.from_slice_v bs ≡ some v

  -- A usize has at most 64 bits.
  pub record UsizeWidth : Type 0 where
    pub at_most_64 : p.usize_max < 2 ^ 64
