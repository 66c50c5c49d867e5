-- ===== src/Persist/Bytes.antt =====
-- Round trips of the little-endian integers, and the rules by which readers follow writers.
use native.Mathlib.Nat.{pow-suc}
use mathlib.Core.List.{append_assoc}
use vexdb.Prelude.{
  ℕ, zero, suc, ◌*◌, ◌/◌, ◌^◌, ◌<◌, Bool, true, false, List, [], ◌∷◌, ◌++◌, ◌≡◌, refl, ap, arith,
  length, take, drop, leb, le→leb, length-append, String,
}
use vexdb.Persist.Format.{Result, ok, err, to_le_bytes, from_le_bytes}
use vexdb.Persist.Write
use vexdb.Persist.Read.{Reader, ◌>>=◌, ◌>>◌, pure, check, read_exact, get_uint}

-- In front of any bytes, the reader takes exactly these and returns the value.
abbrev pub Reads : {A : Type 0} → Reader A → List ℕ → A → Type 0
Reads r bytes a = (rest : List ℕ) → r (bytes ++ rest) ≡ ok (a, rest)

pub Reads-bind :
    {A B : Type 0} (m : Reader A) (f : A → Reader B) (xs ys : List ℕ) (a : A) (b : B)
    → Reads m xs a
    → Reads (f a) ys b
    → Reads (m >>= f) (xs ++ ys) b
Reads-bind m f xs ys a b h k rest = rw (append_assoc xs ys rest, h (ys ++ rest), ◌>>=◌) (k rest)

-- A reader that takes nothing in front of the next one.
pub Reads-check :
    {B : Type 0} (t : Bool) (msg : String) (k : Reader B) (ys : List ℕ) (b : B)
    → t ≡ true
    → Reads k ys b
    → Reads (check t msg >> k) ys b
Reads-check true msg k ys b e h rest = h rest
Reads-check false msg k ys b e h rest = cc

pub Reads-pure_end :
    {A B : Type 0} (m : Reader A) (f : A → B) (xs : List ℕ) (a : A)
    → Reads m xs a
    → Reads (m >>= λ x. pure (f x)) xs (f a)
Reads-pure_end m f xs a h rest = rw (h rest, ◌>>=◌)

module _ {ℓ} {A : Type ℓ} where
  pub take-append : (xs ys : List A) → take (length xs) (xs ++ ys) ≡ xs
  take-append [] ys = refl
  take-append (x ∷ xs) ys = ap (◌∷◌ x) (take-append xs ys)

  pub drop-append : (xs ys : List A) → drop (length xs) (xs ++ ys) ≡ ys
  drop-append [] ys = refl
  drop-append (x ∷ xs) ys = drop-append xs ys

pub read_exact-Reads :
    (n : ℕ) (bytes : List ℕ) → length bytes ≡ n → Reads (read_exact n) bytes bytes
unfolding read_exact
read_exact-Reads n bytes e rest =
    let fits : leb (length bytes) (length (bytes ++ rest)) ≡ true =
      le→leb _ _ (omega (arith, length-append bytes rest)) in
    rw (← e, fits, take-append, drop-append)

pub length-to_le_bytes : (width v : ℕ) → length (to_le_bytes width v) ≡ width
unfolding to_le_bytes
length-to_le_bytes zero v = refl
length-to_le_bytes (suc width) v = ap suc (length-to_le_bytes width (v / 256))

pub from_le_bytes-to_le_bytes :
    (width v : ℕ) → v < 256 ^ width → from_le_bytes (to_le_bytes width v) ≡ v
unfolding to_le_bytes from_le_bytes
from_le_bytes-to_le_bytes zero v h = omega arith
from_le_bytes-to_le_bytes (suc width) v h =
    let bound : v < 256 ^ width * 256 = rw pow-suc at h in
    rw (from_le_bytes-to_le_bytes width (v / 256) (omega arith)) (omega arith)

-- An integer that fits its width reads back.
pub get_uint-Reads :
    (width v : ℕ) → v < 256 ^ width → Reads (get_uint width) (to_le_bytes width v) v
unfolding get_uint
get_uint-Reads width v h = rw (from_le_bytes-to_le_bytes width v h) at (
    Reads-pure_end (read_exact width) from_le_bytes (to_le_bytes width v) _
      (read_exact-Reads width _ (length-to_le_bytes width v)))

pub ok_injective {ℓ} : {A : Type ℓ} {a b : A} → ok a ≡ ok b → a ≡ b
ok_injective e = cc

-- The steps of a writer that succeeds.
pub write_ok {ℓ κ} :
    {A : Type ℓ} {B : Type κ} (m : Result A) (f : A → Result B) {b : B}
    → Write.◌>>=◌ m f ≡ ok b
    → (a : A) × (m ≡ ok a) × (f a ≡ ok b)
write_ok (ok a) f h = (a, refl, h)
write_ok (err e) f h = cc
