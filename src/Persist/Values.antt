-- ===== src/Persist/Values.antt =====
-- Round trips of the parts of a snapshot: vectors, payloads, sizes and the header.
use vexdb.Prelude.{
  ℕ, ◌*◌, ◌%◌, ◌≤◌, ◌<◌, true, false, ◌&&◌, ◌||◌, Option, none, some, List, [], ◌∷◌, ◌++◌, ◌≡◌,
  refl, arith, length, take, drop, leb, ltb, ◌==◌, le→leb, length-append, String, Option-cases,
  if◌then◌else◌, ◌⊎◌, inl, inr,
}
use mathlib.Core.List.{append_assoc}
use vexdb.Platform.{Platform}
use vexdb.Platform.Laws.{FloatBits, ParsesBack, UsizeWidth}
use vexdb.Distance.Metric.{DistanceMetric}
use vexdb.Distance.Tags.{to_tag, from_tag-to_tag}
use vexdb.Persist.Format.{
  ok, corrupt, to_le_bytes, from_le_bytes, magic, format_version, type_flat, type_hnsw,
  max_payload_bytes,
}
use vexdb.Persist.Write.{put_f32_slice, put_payload, write_header, put_u32}
use vexdb.Persist.Read.{
  Reader, ◌>>=◌, ◌>>◌, pure, check, fail, read_exact, f32_chunks, get_f32_vec, get_payload,
  get_usize, get_u8, get_u32, read_header,
}
use vexdb.Persist.Bytes.{
  Reads, Reads-bind, Reads-pure_end, take-append, drop-append, read_exact-Reads, length-to_le_bytes,
  from_le_bytes-to_le_bytes, get_uint-Reads, ok_injective,
}

to_le_bytes_byte : (b : ℕ) → b < 256 → to_le_bytes 1 b ≡ b ∷ []
unfolding to_le_bytes
to_le_bytes_byte b h = let e : b % 256 ≡ b = omega arith in rw e

module _ ⦃p : Platform⦄ where
  open p use {F32, Value, to_bits, from_bits, to_vec_v, from_slice_v, usize_max}

  pub length-put_f32_slice : (vs : List F32) → length (put_f32_slice vs) ≡ length vs * 4
  unfolding put_f32_slice
  length-put_f32_slice [] = omega arith
  length-put_f32_slice (v ∷ vs) = omega (
    arith,
    length-append {0} (to_le_bytes 4 (to_bits v)) (put_f32_slice vs),
    length-to_le_bytes 4 (to_bits v),
    length-put_f32_slice vs,
  )

  module _ (bits : FloatBits p) where
    f32_chunks-put : (vs : List F32) → f32_chunks (length vs) (put_f32_slice vs) ≡ vs
    unfolding f32_chunks put_f32_slice
    f32_chunks-put [] = refl
    f32_chunks-put (v ∷ vs) =
        let bytes = to_le_bytes 4 (to_bits v) in
        let first : take 4 (bytes ++ put_f32_slice vs) ≡ bytes =
          rw (length-to_le_bytes 4 (to_bits v)) at (take-append bytes (put_f32_slice vs)) in
        let others : drop 4 (bytes ++ put_f32_slice vs) ≡ put_f32_slice vs =
          rw (length-to_le_bytes 4 (to_bits v)) at (drop-append bytes (put_f32_slice vs)) in
        let same : from_bits (from_le_bytes bytes) ≡ v =
          rw (from_le_bytes-to_le_bytes 4 (to_bits v) (omega (arith, bits.bits_bound v)))
            (bits.from-to_bits v) in
        rw (first, others, same, f32_chunks-put vs)

    -- A vector reads back with its dimension.
    pub get_f32_vec-Reads : (vs : List F32) → Reads (get_f32_vec (length vs)) (put_f32_slice vs) vs
    unfolding get_f32_vec
    get_f32_vec-Reads vs = rw (f32_chunks-put vs) at (
        Reads-pure_end (read_exact (length vs * 4)) (f32_chunks (length vs)) (put_f32_slice vs) _
          (read_exact-Reads _ _ (length-put_f32_slice vs)))

  -- What `get_payload` does after the length.
  abbrev payload_of : ℕ → Reader (Option Value)
  payload_of len = if len == 0 then pure none else (do
    check (leb len max_payload_bytes) "payload length exceeds limit"
    bytes ← read_exact len
    elim (from_slice_v bytes) [
      | none ↦ fail (corrupt "payload is not valid JSON")
      | some value ↦ pure (some value)
    ])

  payload_body :
      (v : Value) (text : List ℕ)
      → from_slice_v text ≡ some v
      → 0 < length text
      → length text ≤ max_payload_bytes
      → Reads (payload_of (length text)) text (some v)
  payload_body v text back pos short rest =
      let nonzero : (length text == 0) ≡ false = ground arith in
      rw (nonzero, le→leb _ _ short, read_exact-Reads (length text) text refl rest, back, ◌>>=◌)

  -- A payload that was written, absent or one that its text parses to, reads back, and the bytes behind
  -- it are left unread.
  pub get_payload-Reads :
      (v : Option Value) {bytes : List ℕ}
      → ParsesBack p v
      → put_payload v ≡ ok bytes
      → Reads get_payload bytes v
  unfolding put_payload get_payload
  get_payload-Reads none {bytes} json e rest =
      rw (← ok_injective e, get_uint-Reads 4 0 (omega arith) rest, ◌>>=◌)
  get_payload-Reads (some v) {bytes} json e rest = elim (Option-cases (to_vec_v v)) [
    | inl unprinted ↦ absurd (ground (arith, unprinted))
    | inr (text, printed) ↦
        let short : (0 < length text) × (length text ≤ max_payload_bytes) =
          ground (arith, printed) in
        let whole : put_u32 (length text) ++ text ≡ bytes = ground (arith, printed) in
        let body : Reads get_payload (put_u32 (length text) ++ text) (some v) =
          Reads-bind get_u32 _ (put_u32 (length text)) text (length text) (some v)
            (get_uint-Reads 4 (length text) (omega arith))
            (payload_body v text (json v text refl printed) short.0 short.1) in
        rw whole at (body rest)
  ]

  pub get_u8-Reads : (b : ℕ) → b < 256 → Reads get_u8 (b ∷ []) b
  get_u8-Reads b h = rw (to_le_bytes_byte b h) at (get_uint-Reads 1 b (omega arith))

  tag_byte : (metric : DistanceMetric) → to_tag metric < 256
  unfolding to_tag
  tag_byte metric = ground arith

  -- A number that fits a usize of the target.
  pub get_usize-Reads :
      UsizeWidth p
      → (v : ℕ) (msg : String) → v ≤ usize_max
      → Reads (get_usize msg) (to_le_bytes 8 v) v
  unfolding get_usize
  get_usize-Reads width v msg h rest =
      rw (get_uint-Reads 8 v (omega (arith, width.at_most_64)) rest, le→leb v usize_max h, ◌>>=◌)

  pub read_header-Reads :
      UsizeWidth p
      → (index_type : ℕ) (metric : DistanceMetric) (dim : ℕ)
      → (index_type ≡ type_flat) ⊎ (index_type ≡ type_hnsw)
      → 0 < dim
      → dim ≤ 1_048_576
      → dim ≤ usize_max
      → Reads read_header
          (write_header index_type metric dim)
          (record { index_type = index_type; metric = metric; dim = dim })
  unfolding read_header write_header
  read_header-Reads width index_type metric dim kind pos bound fits rest =
      let known : (index_type == type_flat || index_type == type_hnsw) ≡ true = ground arith in
      let plausible : (ltb 0 dim && leb dim 1_048_576) ≡ true = ground arith in
      simp (
        append_assoc,
        read_exact-Reads 8 magic refl,
        get_uint-Reads 4 format_version (omega arith),
        get_u8-Reads index_type (ground arith),
        known,
        get_u8-Reads (to_tag metric) (tag_byte metric),
        from_tag-to_tag,
        get_uint-Reads 2 0 (omega arith),
        get_usize-Reads width dim "dim overflows usize" fits,
        plausible,
        ◌>>=◌,
      )
