-- ===== src/Server/Deletion.antt =====
-- `delete_point` of crates/vex-server/src/routes.rs: what a removal makes of the collections and their
-- snapshots.
use vexdb.Prelude.{
  Bool, true, false, some, ◌≡◌, refl, sym, ◌∙◌, ap, arith, String, Bool-cases, Option-cases, inl,
  inr, get_elem?,
}
use vexdb.Platform.{Platform}
use vexdb.Error
use vexdb.Error.{VectorId, Outcome, ◌>>=◌}
use vexdb.Collections.Dict
use vexdb.Collections.Dict.{string_eq, nat_eq}
use vexdb.Flat
use vexdb.Flat.{FlatIndex}
use vexdb.Flat.Invariant.{IsValid}
use vexdb.Flat.Remove.{remove_absent, remove_present, remove-IsWithout}
use vexdb.Hnsw.{HnswIndex}
use vexdb.Hnsw.Insert
use vexdb.Persist.Any
use vexdb.Persist.Any.{AnyIndex, flat, hnsw}
use vexdb.Persist.Sound.{IsSound}
use vexdb.Server.{Files, Collection, AppState, get}
use vexdb.Server.Durable.{IsServed, rewrite-IsServed}
use vexdb.Server.Routes.{finish_delete, delete_point}

module _ ⦃p : Platform⦄ where
  flat-unchanged :
      (idx idx' : FlatIndex)
      → IsValid idx
      → (id : VectorId) → Flat.remove idx id ≡ Error.ok (idx', false)
      → idx' ≡ idx
  flat-unchanged idx idx' w id h = elim (Option-cases (Dict.get idx.id_to_pos id)) [
    | inl absent ↦ ground (arith, h, remove_absent idx id absent)
    | inr (pos, at) ↦ let (mid, gone, _) = remove_present idx w id pos at in cc
  ]

  hnsw-unchanged :
      (idx idx' : HnswIndex) (id : VectorId)
      → Insert.remove idx id ≡ Error.ok (idx', false)
      → idx' ≡ idx
  unfolding Insert.remove
  hnsw-unchanged idx idx' id h = elim (Option-cases (Dict.get idx.id_to_pos id)) [
    | inl absent ↦ ground (arith, h, absent)
    | inr (pos, at) ↦ elim (Option-cases (get_elem? idx.nodes pos)) [
      | inl outside ↦ ground (arith, h, at, outside)
      | inr (node, held) ↦ ground (arith, h, at, held)
    ]
  ]

  graph-kept :
      (idx : HnswIndex) (id : VectorId) (o : Outcome (HnswIndex × Bool))
      → Insert.remove idx id ≡ o
      → (index' : AnyIndex) (removed : Bool)
      → ◌>>=◌ {B = AnyIndex × Bool} o (λ (i', was). Error.ok (hnsw i', was))
        ≡ Error.ok (index', removed)
      → IsSound index' × (removed ≡ false → index' ≡ hnsw idx)
  graph-kept idx id (Error.ok (idx', was)) run index' removed h =
      let (end, same) : (hnsw idx' ≡ index') × (was ≡ removed) = ground (arith, h) in
      (rw (sym end) tt, λ r. sym end ∙ ap hnsw (hnsw-unchanged idx idx' id (rw (same ∙ r) at run)))
  graph-kept idx id (Error.err e) run index' removed h = cc
  graph-kept idx id Error.panic run index' removed h = cc
  graph-kept idx id Error.stuck run index' removed h = cc

  -- A removal keeps an index well formed, and one that removes nothing changes nothing.
  remove-kept :
      (index : AnyIndex)
      → IsSound index
      → (id : VectorId) (index' : AnyIndex) (removed : Bool)
      → Any.remove index id ≡ Error.ok (index', removed)
      → IsSound index' × (removed ≡ false → index' ≡ index)
  remove-kept (flat idx) w id index' removed h =
      let (mid, gone, without) = remove-IsWithout idx w id in
      let (end, nothing) : (flat mid ≡ index') × (Flat.contains idx id ≡ removed) =
        ground (arith, h, gone) in
      (
        rw (sym end) without.valid,
        λ r. sym end ∙ ap flat (flat-unchanged idx mid w id (ground (arith, gone, nothing, r))),
      )
  remove-kept (hnsw idx) w id index' removed h =
      graph-kept idx id (Insert.remove idx id) refl index' removed h

  module _ {Disk : Type 0} (files : Files Disk) where
    open files use {read}

    finish_delete-IsServed :
        (state : AppState Disk)
        → IsServed files state
        → (name : String) (c : Collection) → get state name ≡ some c
        → (o : Outcome (AnyIndex × Bool))
        → ((index : AnyIndex) (removed : Bool)
            → o ≡ Error.ok (index, removed)
            → IsSound index × (removed ≡ false → index ≡ c.index))
        → IsServed files (finish_delete state name c o).0
    unfolding finish_delete get
    finish_delete-IsServed state served name c found (Error.ok (index, true)) kept =
        rewrite-IsServed files state served name c found (record c { index = index; dirty = true })
          refl (kept index true refl).0 (λ h. cc)
    finish_delete-IsServed state served name c found (Error.ok (index, false)) kept =
        let (sound, same) = kept index false refl in
        rewrite-IsServed files state served name c found (record c { index = index }) refl sound
          λ clean. rw (same refl) (served.kept name c found clean)
    finish_delete-IsServed state served name c found (Error.err e) kept = served
    finish_delete-IsServed state served name c found Error.panic kept = served
    finish_delete-IsServed state served name c found Error.stuck kept = served

    pub delete_point-IsServed :
        (state : AppState Disk)
        → IsServed files state
        → (name : String) (id : VectorId) → IsServed files (delete_point state name id).0
    unfolding delete_point get
    delete_point-IsServed state served name id = elim (Bool-cases state.is_read_only) [
      | inl h ↦ simp (h, delete_point) served
      | inr writable ↦ elim (Option-cases (Dict.get state.collections name)) [
        | inl h ↦ simp (writable, h, delete_point) served
        | inr (c, at) ↦
            let run : delete_point state name id
                ≡ finish_delete state name c (Any.remove c.index id) =
              simp (writable, at, delete_point) in
            rw run (
              finish_delete-IsServed state served name c at (Any.remove c.index id)
                (λ index removed h.
                  remove-kept c.index (served.sound name c at) id index removed h))
      ]
    ]
