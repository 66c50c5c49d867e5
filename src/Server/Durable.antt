-- ===== src/Server/Durable.antt =====
-- The collections of a server against their snapshots on disk, and what each handler makes of that.
use vexdb.Prelude.{
  ℕ, true, false, some, List, ◌≡◌, ◌≢◌, refl, sym, ◌∙◌, arith, String, length, ltb, ◌==◌,
  Bool-cases, Option-cases, inl, inr,
}
use vexdb.Platform.{Platform}
use vexdb.Collections.Dict
use vexdb.Collections.Dict.{string_eq}
use vexdb.Collections.Unique.{IsUnique, insert-IsUnique, remove-IsUnique}
use vexdb.Persist.Any
use vexdb.Persist.Any.{AnyIndex}
use vexdb.Persist.Sound.{IsSound}
use vexdb.Server.{
  Reply, done, failed, panicked, stuck, Files, snapshot, Collection, AppState, get, validate_name,
}
use vexdb.Server.Flush.{Keeps, Named, Others}
use vexdb.Server.Applied.{IsApplied, apply_points-IsApplied}
use vexdb.Server.Routes.{
  PointInput, update, write_back, apply_points, all_sized, upsert_points, max_batch,
}

-- The handler came through, with a value or an error.
abbrev pub Answers : {A : Type 0} → Reply A → Type 0
Answers (done a) = Unit
Answers (failed e) = Unit
Answers panicked = ⊥
Answers stuck = ⊥

module _ ⦃p : Platform⦄ {Disk : Type 0} (files : Files Disk) where
  open files use {read}

  -- Each collection is filed once, under its name, which is a valid one. Its index is well formed, where it is flat, and if it
  -- is not dirty, its snapshot has it.
  pub record IsServed (state : AppState Disk) : Type 0 where
    pub named : Named state.collections
    pub valid :
        (key : String) (c : Collection)
        → Dict.get state.collections key ≡ some c
        → validate_name key ≡ true
    pub unique : IsUnique state.collections
    pub sound :
        (key : String) (c : Collection) → Dict.get state.collections key ≡ some c → IsSound c.index
    pub kept :
        (key : String) (c : Collection)
        → Dict.get state.collections key ≡ some c
        → c.dirty ≡ false
        → Keeps (read state.disk (snapshot key)) c.index

  -- The mode of the server does not matter.
  pub mode-IsServed :
      (state state' : AppState Disk)
      → state'.collections ≡ state.collections
      → state'.disk ≡ state.disk
      → IsServed state
      → IsServed state'
  mode-IsServed state state' collections disk served = record {
    named = rw collections served.named;
    valid = rw collections served.valid;
    unique = rw collections served.unique;
    sound = rw collections served.sound;
    kept = rw (collections, disk) served.kept;
  }

  module _ (state : AppState Disk) (served : IsServed state) (disk' : Disk) where
    inserted :
        (name key : String) (c' d : Collection)
        → string_eq.beq name key ≡ true
        → Dict.get (Dict.insert state.collections name c') key ≡ some d
        → (name ≡ key) × (c' ≡ d)
    inserted name key c' d e h = (
      (string_eq.beq_iff name key).0 e,
      ground (arith, e, h, Dict.get-insert state.collections name c' key),
    )

    before :
        (name key : String) (c' d : Collection)
        → string_eq.beq name key ≡ false
        → Dict.get (Dict.insert state.collections name c') key ≡ some d
        → Dict.get state.collections key ≡ some d
    before name key c' d ne h = ground (arith, ne, h, Dict.get-insert state.collections name c' key)

    -- The other snapshots are as they were.
    pub update-IsServed :
        (name : String) (c' : Collection)
        → validate_name name ≡ true
        → c'.name ≡ name
        → IsSound c'.index
        → Others files state.disk name disk'
        → (c'.dirty ≡ false → Keeps (read disk' (snapshot name)) c'.index)
        → IsServed (update (record state { disk = disk' }) name c')
    update-IsServed name c' ok same sound others kept = record {
      named = λ key d h. elim (Bool-cases (string_eq.beq name key)) [
        | inl e ↦ let (alike, here) = inserted name key c' d e h in rw (sym here) (same ∙ alike)
        | inr ne ↦ served.named key d (before name key c' d ne h)
      ];
      valid = λ key d h. elim (Bool-cases (string_eq.beq name key)) [
        | inl e ↦ let (alike, here) = inserted name key c' d e h in rw (sym alike) ok
        | inr ne ↦ served.valid key d (before name key c' d ne h)
      ];
      unique = insert-IsUnique state.collections name c' served.unique;
      sound = λ key d h. elim (Bool-cases (string_eq.beq name key)) [
        | inl e ↦ let (alike, here) = inserted name key c' d e h in rw (sym here) sound
        | inr ne ↦ served.sound key d (before name key c' d ne h)
      ];
      kept = λ key d h clean. elim (Bool-cases (string_eq.beq name key)) [
        | inl e ↦
            let (alike, here) = inserted name key c' d e h in
            rw (sym alike, sym here) (kept (rw here clean))
        | inr ne ↦
            rw (others key (λ e. ground (arith, ne, e, (string_eq.beq_iff name key).1)))
              (served.kept key d (before name key c' d ne h) clean)
      ];
    }

    -- No snapshot changed.
    pub disk-IsServed :
        ((key : String) → read disk' (snapshot key) ≡ read state.disk (snapshot key))
        → IsServed (record state { disk = disk' })
    disk-IsServed same = record {
      named = served.named;
      valid = served.valid;
      unique = served.unique;
      sound = served.sound;
      kept = λ key c h clean. rw (same key) (served.kept key c h clean);
    }

    left :
        (name key : String) (c : Collection)
        → Dict.get (Dict.remove state.collections name) key ≡ some c
        → (key ≢ name) × (Dict.get state.collections key ≡ some c)
    left name key c h = elim (Bool-cases (string_eq.beq name key)) [
      | inl e ↦ absurd (ground (arith, e, h, Dict.get-remove state.collections name key))
      | inr ne ↦ (
        λ e. ground (arith, ne, e, (string_eq.beq_iff name key).1),
        ground (arith, ne, h, Dict.get-remove state.collections name key),
      )
    ]

    -- A collection goes.
    pub remove-IsServed :
        (name : String)
        → Others files state.disk name disk'
        → IsServed (record state { collections = Dict.remove state.collections name; disk = disk' })
    remove-IsServed name others = record {
      named = λ key c h. served.named key c (left name key c h).1;
      valid = λ key c h. served.valid key c (left name key c h).1;
      unique = remove-IsUnique state.collections name served.unique;
      sound = λ key c h. served.sound key c (left name key c h).1;
      kept = λ key c h clean.
          let (ne, was) = left name key c h in rw (others key ne) (served.kept key c was clean);
    }

  module _ (state : AppState Disk) (served : IsServed state) (name : String) (c : Collection)
      (found : get state name ≡ some c) where
    -- The collection of the name changes, and nothing on disk.
    pub rewrite-IsServed :
        (c' : Collection)
        → c'.name ≡ c.name
        → IsSound c'.index
        → (c'.dirty ≡ false → Keeps (read state.disk (snapshot name)) c'.index)
        → IsServed (update state name c')
    unfolding get
    rewrite-IsServed c' same sound kept =
        update-IsServed state served state.disk name c' (served.valid name c found)
          (same ∙ served.named name c found) sound (λ key ne. refl) kept

    write_back-IsServed :
        (count : ℕ) (end : AnyIndex × Reply (Unit {0}))
        → IsApplied end
        → Answers (write_back state name c count end).1
        → IsServed (write_back state name c count end).0
    unfolding write_back
    write_back-IsServed count (index, done _) sound answers =
        rewrite-IsServed (record c { index = index; dirty = true }) refl sound (λ h. cc)
    write_back-IsServed count (index, failed e) sound answers = absurd sound
    write_back-IsServed count (index, panicked) sound answers = absurd answers
    write_back-IsServed count (index, stuck) sound answers = absurd answers

  pub upsert_points-IsServed :
      (state : AppState Disk)
      → IsServed state
      → (name : String) (points : List PointInput) → Answers (upsert_points state name points).1
      → IsServed (upsert_points state name points).0
  unfolding upsert_points get
  upsert_points-IsServed state served name points answers = elim (Bool-cases state.is_read_only) [
    | inl h ↦ simp (h, upsert_points) served
    | inr writable ↦ elim (Bool-cases (length points == 0)) [
      | inl h ↦ simp (writable, h, upsert_points) served
      | inr filled ↦ elim (Bool-cases (ltb max_batch (length points))) [
        | inl h ↦ simp (writable, filled, h, upsert_points) served
        | inr fits ↦ elim (Option-cases (Dict.get state.collections name)) [
          | inl h ↦ simp (writable, filled, fits, h, upsert_points) served
          | inr (c, found) ↦ elim (Bool-cases (all_sized (Any.dim c.index) points)) [
            | inr h ↦ simp (writable, filled, fits, found, h, upsert_points) served
            | inl sized ↦
                let end = apply_points c.index (Any.dim c.index) points in
                let run : upsert_points state name points
                    ≡ write_back state name c (length points) end =
                  simp (writable, filled, fits, found, sized, upsert_points) in
                rw run (
                  write_back-IsServed state served name c found (length points) end
                    (apply_points-IsApplied c.index points (served.sound name c found) sized)
                    (rw run at answers))
          ]
        ]
      ]
    ]
  ]
