-- ===== src/Collections/Dict.antt =====
-- std::collections::HashMap as an association list, over keys with a Boolean equality.
use text.Mathlib.Text.{◌==◌ as str_eq}
use text.Mathlib.TextEquality.{eq_iff}
use vexdb.Prelude.{
  ℕ, String, Bool, true, false, Option, none, some, List, [], ◌∷◌, ◌≡◌, ◌↔◌, refl, arith,
  if◌then◌else◌, ◌==◌ as nat_beq, ==_iff,
}

pub record Eq {ℓ} (K : Type ℓ) : Type ℓ where
  pub beq : K → K → Bool
  pub beq_iff : (a b : K) → (beq a b ≡ true) ↔ (a ≡ b)

instance abbrev pub nat_eq : Eq ℕ
nat_eq = record { beq = nat_beq; beq_iff = ==_iff }

instance abbrev pub string_eq : Eq String
string_eq = record { beq = str_eq; beq_iff = eq_iff }

pub beq_refl {ℓ} : {K : Type ℓ} ⦃e : Eq K⦄ (k : K) → e.beq k k ≡ true
beq_refl ⦃e⦄ k = (e.beq_iff k k).1 refl

module _ {ℓ κ} {K : Type ℓ} {V : Type κ} ⦃e : Eq K⦄ where
  unfoldable pub get : List (K × V) → K → Option V
  get [] k = none
  get ((j, v) ∷ m) k = if e.beq j k then some v else get m k

  unfoldable pub insert : List (K × V) → K → V → List (K × V)
  insert [] k v = (k, v) ∷ []
  insert ((j, w) ∷ m) k v = if e.beq j k then (k, v) ∷ m else (j, w) ∷ insert m k v

  -- Every entry of the key goes, so that a list with a repeated key is no worse.
  unfoldable pub remove : List (K × V) → K → List (K × V)
  remove [] k = []
  remove ((j, v) ∷ m) k = if e.beq j k then remove m k else (j, v) ∷ remove m k

  -- `entry(k).or_insert(v)`
  unfoldable pub or_insert : List (K × V) → K → V → List (K × V)
  or_insert m k v = elim (get m k) [ none ↦ insert m k v | some _ ↦ m ]

  unfoldable pub contains_key : List (K × V) → K → Bool
  contains_key m k = elim (get m k) [ none ↦ false | some _ ↦ true ]

  pub get-insert :
      (m : List (K × V)) (k : K) (v : V) (j : K)
      → get (insert m k v) j ≡ (if e.beq k j then some v else get m j)
  unfolding get insert
  get-insert [] k v j = refl
  get-insert ((i, w) ∷ m) k v j =
      ground (arith, e.beq_iff k j, e.beq_iff i k, e.beq_iff i j, get-insert m k v j)

  pub get-insert_self : (m : List (K × V)) (k : K) (v : V) → get (insert m k v) k ≡ some v
  get-insert_self m k v = rw (get-insert, beq_refl k)

  pub get-remove :
      (m : List (K × V)) (k j : K) → get (remove m k) j ≡ (if e.beq k j then none else get m j)
  unfolding get remove
  get-remove [] k j = ground arith
  get-remove ((i, w) ∷ m) k j =
      ground (arith, e.beq_iff k j, e.beq_iff i k, e.beq_iff i j, get-remove m k j)

  pub get-or_insert :
      (m : List (K × V)) (k : K) (v : V) (j : K)
      → get (or_insert m k v) j
        ≡ (elim (get m k) [ none ↦ (if e.beq k j then some v else get m j) | some _ ↦ get m j ])
  unfolding or_insert
  get-or_insert m k v j = ground (arith, get-insert m k v j)
