-- ===== src/Server/Reopen.antt =====
-- The searches of a collection with a flat index, before and after a restart of the server.
use mathlib.Core.List.{append-nil}
use vexdb.Prelude.{
  ℕ, Bool, false, ◌||◌, Option, none, some, List, [], ◌∷◌, ◌≡◌, refl, sym, ap, ◌∙◌, String, ltb,
  ◌==◌, Bool-cases, Option-cases, inl, inr,
}
use vexdb.Platform.{Platform}
use vexdb.Platform.Laws.{FloatBits, UsizeWidth}
use vexdb.Error
use vexdb.Error.{VectorId, Outcome, ◌>>=◌}
use vexdb.Payload.{Filter}
use vexdb.Index.{SearchResult}
use vexdb.Collections.Dict
use vexdb.Collections.Dict.{string_eq, nat_eq}
use vexdb.Flat
use vexdb.Flat.{FlatIndex}
use vexdb.Flat.Invariant.{IsValid}
use vexdb.Persist.Format
use vexdb.Persist.Bytes.{ok_injective}
use vexdb.Persist.FlatRoundTrip.{IsStorable, IsSame, read_any-write_to}
use vexdb.Persist.Any
use vexdb.Persist.Any.{AnyIndex, flat, hnsw, read_any, read_from}
use vexdb.Server.{Files, Collection, AppState, get}
use vexdb.Server.Disk.{FileLaws, DirLaws}
use vexdb.Server.Lifetime.{Served, load-Served-IsServed}
use vexdb.Server.Restart.{IsBack, load-IsBack}
use vexdb.Server.Routes.{SearchRequest, to_hits, reply_of, search, max_k, max_ef}
use vexdb.Server.Start.{started, load}

module _ ⦃p : Platform⦄ where
  open p use {F32, Value}

  IsSame-refl : (idx : FlatIndex) → IsSame idx idx
  IsSame-refl idx = record { metric = refl; dim = refl; entries = refl; lookups = λ id. refl }

  -- What a snapshot of a flat index gave back is the same index.
  back-IsSame :
      FloatBits p
      → UsizeWidth p
      → (idx : FlatIndex) → IsValid idx
      → IsStorable idx
      → (index' : AnyIndex) → IsBack (flat idx) index'
      → (idx' : FlatIndex) × (index' ≡ flat idx') × IsSame idx idx'
  back-IsSame bits width idx w storable index' (inl same) = (idx, same, IsSame-refl idx)
  back-IsSame bits width idx w storable index' (inr (bytes, wrote, back)) =
      let (idx', reads, same) = read_any-write_to bits width idx w storable bytes wrote [] in
      let reads' : read_any bytes ≡ Format.ok (flat idx', []) = rw append-nil at reads in
      let whole : read_from bytes ≡ Format.ok (flat idx') = rw (reads', read_from) refl in
      (idx', ok_injective (sym back ∙ whole), same)

  module _ (idx idx' : FlatIndex) (same : IsSame idx idx') where
    search_same :
        (query : List F32) (k : ℕ) (filter : Option Filter)
        → Flat.search_filtered idx' query k filter ≡ Flat.search_filtered idx query k filter
    unfolding Flat.search_filtered
    search_same query k filter = rw (same.metric, same.dim, same.entries) refl

    payload_same : (id : VectorId) → Flat.payload idx' id ≡ Flat.payload idx id
    unfolding Flat.payload
    payload_same id = elim (Option-cases (Dict.get idx.id_to_pos id)) [
      | inl absent ↦ simp (same.lookups id, absent, Flat.payload)
      | inr (pos, at) ↦ simp (same.lookups id, at, same.entries, Flat.payload)
    ]

    to_hits_same :
        (with_payload : Bool) (rs : List SearchResult)
        → to_hits (flat idx') with_payload rs ≡ to_hits (flat idx) with_payload rs
    unfolding to_hits
    to_hits_same with_payload [] = refl
    to_hits_same with_payload (r ∷ rs) = rw (payload_same r.id, to_hits_same with_payload rs) refl

    hits_same :
        (with_payload : Bool) (o : Outcome (List SearchResult))
        → (o >>= to_hits (flat idx') with_payload) ≡ (o >>= to_hits (flat idx) with_payload)
    hits_same with_payload (Error.ok rs) = to_hits_same with_payload rs
    hits_same with_payload (Error.err e) = refl
    hits_same with_payload Error.panic = refl
    hits_same with_payload Error.stuck = refl

    answer_same :
        (req : SearchRequest)
        → reply_of (
            Any.search_opts (flat idx') req.query req.k req.ef req.filter
            >>= to_hits (flat idx') req.with_payload)
          ≡ reply_of (
              Any.search_opts (flat idx) req.query req.k req.ef req.filter
              >>= to_hits (flat idx) req.with_payload)
    answer_same req = ap reply_of (
        ap (λ o. o >>= to_hits (flat idx') req.with_payload)
          (search_same req.query req.k req.filter)
        ∙ hits_same req.with_payload (Flat.search_filtered idx req.query req.k req.filter))

  handler_same :
      {Disk : Type 0} (end again : AppState Disk) (name : String) (c c' : Collection)
      → get end name ≡ some c
      → get again name ≡ some c'
      → (idx idx' : FlatIndex) → c.index ≡ flat idx
      → c'.index ≡ flat idx'
      → IsSame idx idx'
      → (req : SearchRequest) → search again name req ≡ search end name req
  unfolding search
  handler_same end again name c c' at at' idx idx' kind kind' same req =
      elim (Bool-cases (req.k == 0 || ltb max_k req.k)) [
        | inl h ↦ simp (h, search)
        | inr k_ok ↦ elim (Bool-cases (elim req.ef [ none ↦ false | some ef ↦ ltb max_ef ef ])) [
          | inl h ↦ simp (k_ok, h, search)
          | inr ef_ok ↦
              simp (k_ok, ef_ok, at, at', kind, kind', search) (answer_same idx idx' same req)
        ]
      ]

  module _ {Disk : Type 0} (files : Files Disk) where
    -- Where std::fs, f32 bit patterns and usize behave as documented: a server has loaded its
    -- data directory, answered requests and run its background task, in any order, and none of its
    -- collections is marked dirty; another one then loads that directory. Every request for a search of a
    -- collection with a flat index within the limits of the format, each of whose payloads its JSON text
    -- parses to, has the same reply from both.
    pub search-load :
        FileLaws files
        → DirLaws files
        → FloatBits p
        → UsizeWidth p
        → (disk : Disk) (is_read_only is_read_only' : Bool) {start end again : AppState Disk}
        → load files disk is_read_only ≡ started start
        → Served files start end
        → ((key : String) (c : Collection)
            → Dict.get end.collections key ≡ some c
            → c.dirty ≡ false)
        → load files end.disk is_read_only' ≡ started again
        → (name : String) (c : Collection) (idx : FlatIndex)
        → Dict.get end.collections name ≡ some c
        → c.index ≡ flat idx
        → IsStorable idx
        → (req : SearchRequest) → search again name req ≡ search end name req
    unfolding get
    search-load laws dirs bits width disk ro ro' {start} {end} {again} loaded run clean reloaded
          name c idx at kind storable req =
        let served = load-Served-IsServed files laws disk ro loaded run in
        let w : IsValid idx = rw kind at (served.sound name c at) in
        let (c', at', back) =
          load-IsBack files laws dirs disk ro ro' loaded run clean reloaded name c at in
        let (idx', kind', same) =
          back-IsSame bits width idx w storable c'.index (rw kind at back) in
        handler_same end again name c c' at at' idx idx' kind kind' same req
