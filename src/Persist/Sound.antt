-- ===== src/Persist/Sound.antt =====
-- What a snapshot that is read yields, whatever its bytes are.
use vexdb.Prelude.{
  ℕ, zero, suc, ◌*◌, Bool, true, false, not, none, List, [], ◌∷◌, ◌≡◌, refl, arith, length,
  length-append, drop, ◌==◌, Bool-cases, inl, inr, String,
}
use vexdb.Platform.{Platform}
use vexdb.Error.{VectorId}
use vexdb.Vector
use vexdb.Collections.Dict
use vexdb.Collections.Dict.{nat_eq}
use vexdb.Distance.Metric.{DistanceMetric}
use vexdb.Flat.{FlatIndex, Entry, new}
use vexdb.Flat.Invariant.{IsValid, new-IsValid}
use vexdb.Flat.Add.{add-appended, add-IsValid}
use vexdb.Persist.Format.{Result, ok, err, type_flat}
use vexdb.Persist.Read.{
  Reader, ◌>>=◌, check, read_exact, f32_chunks, get_f32_vec, get_payload, get_u64, get_usize,
  Header, read_header, read_entries, read_flat_body, read_hnsw_body,
}
use vexdb.Persist.Bytes.{ok_injective}
use vexdb.Persist.Any.{AnyIndex, flat, hnsw, read_any, read_from}

-- A value that is read has the property.
abbrev pub Gives : {A : Type 0} → (A → Type 0) → Result (A × List ℕ) → Type 0
Gives P (ok (a, rest)) = P a
Gives P (err e) = Unit

then-Gives :
    {A B : Type 0} (P : A → Type 0) (Q : B → Type 0) (f : A → Reader B) (r : Result (A × List ℕ))
    → Gives P r
    → ((a : A) (s : List ℕ) → P a → Gives Q (f a s))
    → Gives Q (elim r [ ok (a, s) ↦ f a s | err e ↦ err e ])
then-Gives P Q f (ok (a, s)) h next = next a s h
then-Gives P Q f (err e) h next = tt

pub >>=-Gives :
    {A B : Type 0} (P : A → Type 0) (Q : B → Type 0) (m : Reader A) (f : A → Reader B) (s : List ℕ)
    → Gives P (m s)
    → ((a : A) (s' : List ℕ) → P a → Gives Q (f a s'))
    → Gives Q ((m >>= f) s)
>>=-Gives P Q m f s h next = then-Gives P Q f (m s) h next

Any-Gives : {A : Type 0} (r : Result (A × List ℕ)) → Gives {A = A} (λ _. Unit) r
Any-Gives (ok (a, rest)) = tt
Any-Gives (err e) = tt

check-Gives :
    (test : Bool) (msg : String) (s : List ℕ) → Gives (λ _. test ≡ true) (check test msg s)
check-Gives true msg s = refl
check-Gives false msg s = tt

module _ ⦃p : Platform⦄ where
  open p use {F32, Value}

  length-f32_chunks : (n : ℕ) (bytes : List ℕ) → length (f32_chunks n bytes) ≡ n
  unfolding f32_chunks
  length-f32_chunks zero bytes = refl
  length-f32_chunks (suc n) bytes = ground (arith, length-f32_chunks n (drop 4 bytes))

  get_f32_vec-Gives : (n : ℕ) (s : List ℕ) → Gives (λ v. length v ≡ n) (get_f32_vec n s)
  unfolding get_f32_vec
  get_f32_vec-Gives n s =
      >>=-Gives (λ _. Unit) (λ v. length v ≡ n) (read_exact (n * 4)) _ s (Any-Gives _)
        λ bytes s' _. length-f32_chunks n bytes

  abbrev index_of : DistanceMetric → ℕ → List Entry × List (VectorId × ℕ) → FlatIndex
  index_of metric dim (entries, id_to_pos) = record {
    metric = metric;
    dim = dim;
    entries = entries;
    id_to_pos = id_to_pos;
  }

  free :
      (m : List (VectorId × ℕ)) (id : VectorId)
      → not (Dict.contains_key m id) ≡ true
      → Dict.get m id ≡ none
  unfolding Dict.contains_key
  free m id h = ground (arith, h)

  read_entries-Gives :
      (metric : DistanceMetric) (rounds dim pos : ℕ) (entries : List Entry)
      (id_to_pos : List (VectorId × ℕ))
      → IsValid (index_of metric dim (entries, id_to_pos))
      → pos ≡ length entries
      → (s : List ℕ)
      → Gives
          (λ r. IsValid (index_of metric dim r))
          (read_entries rounds dim pos entries id_to_pos s)
  unfolding read_entries
  read_entries-Gives metric zero dim pos entries m w e s = w
  read_entries-Gives metric (suc rounds) dim pos entries m w e s =
      let Q : List Entry × List (VectorId × ℕ) → Type 0 = λ r. IsValid (index_of metric dim r) in
      >>=-Gives (λ _. Unit) Q get_u64 _ s (Any-Gives _)
        λ id s₁ _.
          >>=-Gives (λ _. Unit) Q get_payload _ s₁ (Any-Gives _)
            λ payload s₂ _.
              >>=-Gives (λ v. length v ≡ dim) Q (get_f32_vec dim) _ s₂ (get_f32_vec-Gives dim s₂)
                λ values s₃ sized.
                  >>=-Gives (λ _. not (Dict.contains_key m id) ≡ true) Q
                    (check (not (Dict.contains_key m id)) "duplicate id in flat snapshot") _ s₃
                    (check-Gives _ _ s₃)
                    λ _ s₄ fresh.
                      let absent = free m id fresh in
                      read_entries-Gives metric rounds dim (suc pos) _ (Dict.insert m id pos)
                        (rw e (
                          add-IsValid (index_of metric dim (entries, m)) id (Vector.from_vec values)
                            payload w
                            (add-appended _ id (Vector.from_vec values) payload sized absent)))
                        (omega (arith, e, length-append entries (_ ∷ []))) s₄

  read_flat_body-Gives : (header : Header) (s : List ℕ) → Gives IsValid (read_flat_body header s)
  unfolding read_flat_body new
  read_flat_body-Gives header s =
      let R : List Entry × List (VectorId × ℕ) → Type 0 =
        λ r. IsValid (index_of header.metric header.dim r) in
      >>=-Gives (λ _. Unit) IsValid (get_usize "count overflows usize") _ s (Any-Gives _)
        λ count s₁ _.
          >>=-Gives R IsValid (read_entries count header.dim 0 [] []) _ s₁
            (read_entries-Gives header.metric count header.dim 0 [] []
              (new-IsValid header.dim header.metric) refl s₁)
            λ (entries, m) s₂ w. w

  -- A flat index is well formed.
  abbrev pub IsSound : AnyIndex → Type 0
  IsSound (flat idx) = IsValid idx
  IsSound (hnsw idx) = Unit

  made-IsSound :
      {A : Type 0} (make : A → AnyIndex) (P : A → Type 0) (r : Result (A × List ℕ))
      → Gives P r
      → ((a : A) → P a → IsSound (make a))
      → Gives IsSound (elim r [ err e ↦ err e | ok (a, rest) ↦ ok (make a, rest) ])
  made-IsSound make P (ok (a, rest)) h sound = sound a h
  made-IsSound make P (err e) h sound = tt

  read_any-Gives : (s : List ℕ) → Gives IsSound (read_any s)
  unfolding read_any
  read_any-Gives s =
      elim (read_header s)
        as (λ r. Gives IsSound (elim r [
          | err e ↦ err e
          | ok (header, rest) ↦ elim (header.index_type == type_flat) [
            | true ↦ elim (read_flat_body header rest) [
              | err e ↦ err e
              | ok (i, rest') ↦ ok (flat i, rest')
            ]
            | false ↦ elim (read_hnsw_body header rest) [
              | err e ↦ err e
              | ok (i, rest') ↦ ok (hnsw i, rest')
            ]
          ]
        ])) [
          | err e ↦ tt
          | ok (header, rest) ↦ elim (Bool-cases (header.index_type == type_flat)) [
            | inl h ↦ rw h (
                made-IsSound flat IsValid (read_flat_body header rest)
                  (read_flat_body-Gives header rest) (λ a w. w))
            | inr h ↦ rw h (
                made-IsSound hnsw (λ _. Unit) (read_hnsw_body header rest) (Any-Gives _)
                  (λ a w. tt))
          ]
        ]

  loaded-IsSound :
      (r : Result (AnyIndex × List ℕ)) (index : AnyIndex)
      → Gives IsSound r
      → (elim r [ err e ↦ err e | ok (i, rest) ↦ ok i ]) ≡ ok index
      → IsSound index
  loaded-IsSound (ok (i, rest)) index w h = rw (ok_injective h) at w
  loaded-IsSound (err e) index w h = cc

  -- Whatever the bytes are that are read as a snapshot: a flat index that comes of them is well formed.
  pub read_from-IsSound :
      (bytes : List ℕ) (index : AnyIndex) → read_from bytes ≡ ok index → IsSound index
  read_from-IsSound bytes index h = loaded-IsSound (read_any bytes) index (read_any-Gives bytes) h
