-- ===== src/Platform.antt =====
-- What vex-core takes from outside its sources: the floating-point types of the machine, the
-- width of `usize`, the detected CPU features, and the JSON values of serde_json.
pub mod Laws
use Prim.Native.Nat.{Ordering}
use vexdb.Prelude.{ℕ, Bool, Option, List, String}

pub record Platform : Type 1 where
  -- f32, its arithmetic, `<` and `==`, `f32::total_cmp` and its bit pattern
  pub F32 : Type 0
  pub zero_f : F32
  pub one_f : F32
  pub inf_f : F32
  pub add_f : F32 → F32 → F32
  pub sub_f : F32 → F32 → F32
  pub mul_f : F32 → F32 → F32
  pub div_f : F32 → F32 → F32
  pub neg_f : F32 → F32
  pub sqrt_f : F32 → F32
  pub fma_f : F32 → F32 → F32 → F32
  -- the value that `Iterator::sum` starts from
  pub sum_start_f : F32
  pub lt_f : F32 → F32 → Bool
  pub eq_f : F32 → F32 → Bool
  pub total_cmp : F32 → F32 → Ordering
  pub to_bits : F32 → ℕ
  pub from_bits : ℕ → F32
  -- f64: filter bounds, and the level distribution of the graph
  pub F64 : Type 0
  pub le_d : F64 → F64 → Bool
  pub one_d : F64
  pub min_positive_d : F64
  pub div_d : F64 → F64 → F64
  pub mul_d : F64 → F64 → F64
  pub max_d : F64 → F64 → F64
  pub neg_d : F64 → F64
  pub ln_d : F64 → F64
  -- `n as f64` of an integer, and `x as usize`
  pub of_int_d : ℕ → F64
  pub as_usize_d : F64 → ℕ
  -- usize::MAX of the target, and whether it has AVX2 and FMA
  pub usize_max : ℕ
  pub has_avx2 : Bool
  -- serde_json::Value: `get` of a key, `as_f64`, the items of an array, `==`, and the text form
  pub Value : Type 0
  pub get_v : Value → String → Option Value
  pub as_f64_v : Value → Option F64
  pub items_v : Value → Option (List Value)
  pub eq_v : Value → Value → Bool
  pub to_vec_v : Value → Option (List ℕ)
  pub from_slice_v : List ℕ → Option Value
