-- ===== src/Server/Kept.antt =====
-- The handlers that create, drop and save, and the flush of all collections: what they make of the
-- collections and their snapshots.
use vexdb.Prelude.{
  Bool, true, ◌||◌, some, ◌≡◌, refl, ◌∙◌, String, ltb, ◌==◌, Bool-cases, Option-cases, inl, inr,
}
use vexdb.Platform.{Platform}
use vexdb.Collections.Dict
use vexdb.Collections.Dict.{string_eq, nat_eq}
use vexdb.Flat.Invariant.{new-IsValid}
use vexdb.Persist.Any.{AnyIndex}
use vexdb.Persist.Sound.{IsSound}
use vexdb.Server.{
  Reply, done, failed, panicked, stuck, Files, snapshot, Collection, AppState, get, new, flush_all,
  flush, validate_name,
}
use vexdb.Server.Disk.{FileLaws}
use vexdb.Server.Flush.{
  IsFlushed, idle, written, unwritten, flushed_same, flushed-Others, flush-IsFlushed,
  flush_each-AreFlushed,
}
use vexdb.Server.Durable.{IsServed, update-IsServed, disk-IsServed, mode-IsServed, remove-IsServed}
use vexdb.Server.Routes.{
  CreateCollection, update, new_index, file_new, register, register_made, create_collection,
  drop_collection, snapshot_collection, max_dim,
}

module _ ⦃p : Platform⦄ where
  module _ {Disk : Type 0} (files : Files Disk) where
    open files use {read}

    module _ (laws : FileLaws files) (state : AppState Disk) (served : IsServed files state) where
      file_new-IsServed :
          (name : String) (index : AnyIndex)
          → validate_name name ≡ true
          → IsSound index
          → (flushed : (Disk × Collection) × Reply Bool)
          → IsFlushed files state.disk (new name index) true flushed
          → IsServed files (file_new state name flushed).0
      unfolding file_new
      file_new-IsServed name index valid sound flushed (idle unforced clean) = cc
      file_new-IsServed name index valid sound flushed (written disk' kept others) =
          update-IsServed files state served disk' name _ valid refl sound others (λ h. kept)
      file_new-IsServed name index valid sound flushed (unwritten disk' same) =
          disk-IsServed files state served disk' same

      -- The reply has an index that is well formed, if it has one.
      abbrev IsMade : Reply AnyIndex → Type 0
      IsMade (done index) = IsSound index
      IsMade (failed e) = Unit
      IsMade panicked = Unit
      IsMade stuck = Unit

      new_index-IsMade : (req : CreateCollection) → IsMade (new_index req)
      unfolding new_index
      new_index-IsMade req = elim (Bool-cases (string_eq.beq req.index "flat")) [
        | inl h ↦ rw h (new-IsValid req.dim req.metric)
        | inr not_flat ↦ elim (Bool-cases (string_eq.beq req.index "hnsw")) [
          | inr h ↦ rw (not_flat, h) tt
          | inl graph ↦ elim (Bool-cases (req.m == 0 || ltb 256 req.m)) [
            | inl h ↦ rw (not_flat, graph, h) tt
            | inr h ↦ rw (not_flat, graph, h) tt
          ]
        ]
      ]

      register_made-IsServed :
          (name : String) (made : Reply AnyIndex)
          → validate_name name ≡ true
          → IsMade made
          → IsServed files (register_made files state name made).0
      unfolding register_made register
      register_made-IsServed name (done index) valid sound =
          elim (Bool-cases (Dict.contains_key state.collections name)) [
            | inl h ↦ simp (h, register) served
            | inr h ↦
                simp (h, register)
                  (file_new-IsServed name index valid sound
                    (flush files state.disk (new name index) true)
                    (flush-IsFlushed files laws state.disk (new name index) true))
          ]
      register_made-IsServed name (failed e) valid sound = served
      register_made-IsServed name panicked valid sound = served
      register_made-IsServed name stuck valid sound = served

      pub create_collection-IsServed :
          (name : String) (req : CreateCollection)
          → IsServed files (create_collection files state name req).0
      unfolding create_collection
      create_collection-IsServed name req = elim (Bool-cases state.is_read_only) [
        | inl h ↦ simp (h, create_collection) served
        | inr writable ↦ elim (Bool-cases (validate_name name)) [
          | inr h ↦ simp (writable, h, create_collection) served
          | inl valid ↦ elim (Bool-cases (req.dim == 0 || ltb max_dim req.dim)) [
            | inl h ↦ simp (writable, valid, h, create_collection) served
            | inr h ↦
                simp (writable, valid, h, create_collection)
                  (register_made-IsServed name (new_index req) valid (new_index-IsMade req))
          ]
        ]
      ]

      pub drop_collection-IsServed :
          (name : String) → IsServed files (drop_collection files state name).0
      unfolding drop_collection get
      drop_collection-IsServed name = elim (Bool-cases state.is_read_only) [
        | inl h ↦ simp (h, drop_collection) served
        | inr writable ↦ elim (Option-cases (Dict.get state.collections name)) [
          | inl h ↦ simp (writable, h, drop_collection) served
          | inr (c, found) ↦ elim (Bool-cases (files.exists state.disk (snapshot name))) [
            | inl h ↦
                simp (writable, found, h, drop_collection)
                  (mode-IsServed files _ _ refl refl (
                    remove-IsServed files state served
                      (files.remove_file state.disk (snapshot name)).0 name
                      λ key ne.
                        laws.remove_rest state.disk (snapshot name) (snapshot key) (λ e. ne cc)))
            | inr h ↦
                simp (writable, found, h, drop_collection)
                  (mode-IsServed files _ _ refl refl
                    (remove-IsServed files state served state.disk name (λ key ne. refl)))
          ]
        ]
      ]

      snapshot-IsServed :
          (name : String) (c : Collection)
          → Dict.get state.collections name ≡ some c
          → (flushed : (Disk × Collection) × Reply Bool) → IsFlushed files state.disk c true flushed
          → IsServed files (update (record state { disk = flushed.0.0 }) name flushed.0.1)
      snapshot-IsServed name c found flushed f =
          let (same, index, kept) = flushed_same files f in
          let mine : c.name ≡ name = served.named name c found in
          update-IsServed files state served flushed.0.0 name flushed.0.1
            (served.valid name c found) (same ∙ mine) (rw index (served.sound name c found))
            (rw mine at (flushed-Others files f))
            (rw mine at (kept (λ clean. rw mine (served.kept name c found clean))))

      pub snapshot_collection-IsServed :
          (name : String) → IsServed files (snapshot_collection files state name).0
      unfolding snapshot_collection get
      snapshot_collection-IsServed name = elim (Bool-cases state.is_read_only) [
        | inl h ↦ simp (h, snapshot_collection) served
        | inr writable ↦ elim (Option-cases (Dict.get state.collections name)) [
          | inl h ↦ simp (writable, h, snapshot_collection) served
          | inr (c, found) ↦
              simp (writable, found, snapshot_collection)
                (mode-IsServed files _ _ refl refl (
                  snapshot-IsServed name c found (flush files state.disk c true)
                    (flush-IsFlushed files laws state.disk c true)))
        ]
      ]

      pub flush_all-IsServed : (force : Bool) → IsServed files (flush_all files state force).0
      unfolding flush_all
      flush_all-IsServed force =
          let all =
            flush_each-AreFlushed files laws state.disk state.collections force served.unique
              served.named in
          record {
            named = λ key c' h.
                let (c, at, name, _, _) = all.same key c' h in name ∙ served.named key c at;
            valid = λ key c' h. let (c, at, _, _, _) = all.same key c' h in served.valid key c at;
            unique = all.unique;
            sound = λ key c' h.
                let (c, at, _, index, _) = all.same key c' h in rw index (served.sound key c at);
            kept = λ key c' h.
                let (c, at, _, _, kept) = all.same key c' h in kept (served.kept key c at);
          }
