-- ===== src/Persist/Format.antt =====
-- Constants and errors of the snapshot format, and little-endian integers.
use vexdb.Prelude.{
  ◌≡◌, ◌⊎◌, inl, inr, refl, ℕ, zero, suc, ◌+◌, ◌*◌, ◌/◌, ◌%◌, List, [], ◌∷◌, String,
}

pub data SnapshotError : Type 0 where
  -- `Io`: for a reader of bytes in memory, the end of the input
  io : SnapshotError
  bad_magic : SnapshotError
  unsupported_version : ℕ → SnapshotError
  -- the message, without the values that it prints
  corrupt : String → SnapshotError

pub data Result {ℓ} (A : Type ℓ) : Type ℓ where
  ok : A → Result A
  err : SnapshotError → Result A

-- b"VEXSNAP\0"
abbrev pub magic : List ℕ
magic = b'V' ∷ b'E' ∷ b'X' ∷ b'S' ∷ b'N' ∷ b'A' ∷ b'P' ∷ 0 ∷ []

abbrev pub format_version : ℕ
format_version = 1

abbrev pub type_flat : ℕ
type_flat = 0

abbrev pub type_hnsw : ℕ
type_hnsw = 1

-- `16 << 20`
abbrev pub max_payload_bytes : ℕ
max_payload_bytes = 16_777_216

abbrev pub max_layers : ℕ
max_layers = 64

-- u64::MAX
abbrev pub no_entry : ℕ
no_entry = 0xffff_ffff_ffff_ffff

-- `v.to_le_bytes()` of an integer of `width` bytes.
unfoldable pub to_le_bytes : ℕ → ℕ → List ℕ
to_le_bytes zero v = []
to_le_bytes (suc width) v = (v % 256) ∷ to_le_bytes width (v / 256)

unfoldable pub from_le_bytes : List ℕ → ℕ
from_le_bytes [] = 0
from_le_bytes (b ∷ bs) = b + 256 * from_le_bytes bs

pub Result-cases {ℓ} :
    {A : Type ℓ} (r : Result A) → ((e : SnapshotError) × (r ≡ err e)) ⊎ ((a : A) × (r ≡ ok a))
Result-cases (err e) = inl (e, refl)
Result-cases (ok a) = inr (a, refl)
