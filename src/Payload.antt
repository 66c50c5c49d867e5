-- ===== src/Payload.antt =====
-- crates/vex-core/src/payload.rs: the filter language over JSON payloads.
pub mod Logic
use vexdb.Prelude.{String, Bool, true, false, ◌&&◌, ◌||◌, Option, none, some, List, [], ◌∷◌}
use vexdb.Platform.{Platform}
use mathlib.Core.Bool.{not as negate}

module _ ⦃p : Platform⦄ where
  open p use {Value, F64, le_d, get_v, as_f64_v, items_v, eq_v}

  mutual
    pub data Filter : Type 0 where
      eq : String → Value → Filter
      range : String → Option F64 → Option F64 → Filter
      «in» : String → List Value → Filter
      contains : String → Value → Filter
      and : Filters → Filter
      or : Filters → Filter
      not : Filter → Filter

    -- `Vec<Filter>`
    pub data Filters : Type 0 where
      nil : Filters
      cons : Filter → Filters → Filters

  -- `payload.and_then(|p| p.get(key))`
  abbrev pub field : Option Value → String → Option Value
  field payload key = elim payload [ none ↦ none | some v ↦ get_v v key ]

  -- `slice::contains` over JSON values
  abbrev pub has_value : List Value → Value → Bool
  has_value [] v = false
  has_value (w ∷ ws) v = eq_v w v || has_value ws v

  -- `bound.is_none_or(|b| test b)`
  abbrev pub is_none_or : Option F64 → (F64 → Bool) → Bool
  is_none_or none test = true
  is_none_or (some b) test = test b

  unfoldable mutual
    pub matches : Filter → Option Value → Bool
    matches (eq key value) payload = elim (field payload key) [
      | none ↦ false
      | some v ↦ eq_v v value
    ]
    matches (range key gte lte) payload = elim (field payload key) [
      | none ↦ false
      | some v ↦ elim (as_f64_v v) [
        | none ↦ false
        | some x ↦ is_none_or gte (λ g. le_d g x) && is_none_or lte (λ l. le_d x l)
      ]
    ]
    matches («in» key values) payload = elim (field payload key) [
      | none ↦ false
      | some v ↦ has_value values v
    ]
    matches (contains key value) payload = elim (field payload key) [
      | none ↦ false
      | some v ↦ elim (items_v v) [ none ↦ eq_v v value | some items ↦ has_value items value ]
    ]
    matches (and fs) payload = all_match fs payload
    matches (or fs) payload = any_match fs payload
    matches (not f) payload = negate (matches f payload)

    pub all_match : Filters → Option Value → Bool
    all_match nil payload = true
    all_match (cons f fs) payload = matches f payload && all_match fs payload

    pub any_match : Filters → Option Value → Bool
    any_match nil payload = false
    any_match (cons f fs) payload = matches f payload || any_match fs payload
