-- ===== src/Server/Restart.antt =====
-- A server that starts again on the data directory of another: `AppState::load` of
-- crates/vex-server/src/state.rs after the flush at the end of crates/vex-server/src/main.rs.
use vexdb.Prelude.{
  ℕ, zero, suc, Bool, true, false, Option, none, some, List, [], ◌∷◌, ◌≡◌, ◌≢◌, ◌⊎◌, sym, ap, ◌∙◌,
  arith, String, get_elem?, Bool-cases, inl, inr,
}
use vexdb.Platform.{Platform}
use vexdb.Collections.Dict
use vexdb.Collections.Dict.{string_eq}
use vexdb.Persist.Format
use vexdb.Persist.Format.{Result, Result-cases}
use vexdb.Persist.Bytes.{ok_injective}
use vexdb.Persist.Any.{AnyIndex, write_to, read_from}
use vexdb.Server.{
  Files, FileName, snapshot, temporary, other, Collection, AppState, new, validate_name,
}
use vexdb.Server.Disk.{FileLaws, DirLaws}
use vexdb.Server.Lifetime.{Served, load-Served-IsServed, load_index-read, load-started, not_started}
use vexdb.Server.Start.{started, load_index, load_each, load}

-- What a snapshot gave back: the index itself, or what is read of the bytes that it writes.
abbrev pub IsBack : ⦃p : Platform⦄ → AnyIndex → AnyIndex → Type 0
IsBack index index' =
    (index' ≡ index)
    ⊎ ((bytes : List ℕ) × (write_to index ≡ Format.ok bytes) × (read_from bytes ≡ Format.ok index'))

module _ ⦃p : Platform⦄ {Disk : Type 0} (files : Files Disk) where
  open files use {read, create_dir_all}

  -- A collection of the key has the index that its snapshot reads back as.
  Holds : Disk → String → List (String × Collection) → Type 0
  Holds disk key cs =
      (c : Collection) × (Dict.get cs key ≡ some c)
      × (load_index files disk key ≡ Format.ok c.index)

  insert-Holds :
      (disk : Disk) (key name : String) (index : AnyIndex) (cs : List (String × Collection))
      → load_index files disk name ≡ Format.ok index
      → Holds disk key cs ⊎ (name ≡ key)
      → Holds disk key (Dict.insert cs name (new name index))
  unfolding Holds
  insert-Holds disk key name index cs made h = elim (Bool-cases (string_eq.beq name key)) [
    | inl e ↦
        let same : name ≡ key = (string_eq.beq_iff name key).0 e in
        (
          new name index,
          ground (arith, e, Dict.get-insert cs name (new name index) key),
          rw same at made,
        )
    | inr ne ↦ elim h [
      | inl (c, at, back) ↦
          (c, ground (arith, ne, at, Dict.get-insert cs name (new name index) key), back)
      | inr same ↦ absurd (ground (arith, ne, (string_eq.beq_iff name key).1 same))
    ]
  ]

  abbrev Lists : List (Option FileName) → String → Type 0
  Lists entries key = (n : ℕ) × (get_elem? entries n ≡ some (some (snapshot key)))

  -- Where the first entry is not the snapshot, the others have it.
  behind :
      (disk : Disk) (key : String) (f : FileName) (entries : List (Option FileName))
      (cs : List (String × Collection))
      → Holds disk key cs ⊎ Lists (some f ∷ entries) key
      → f ≢ snapshot key
      → Holds disk key cs ⊎ Lists entries key
  behind disk key f entries cs (inl held) ne = inl held
  behind disk key f entries cs (inr (zero, at)) ne = absurd (ne cc)
  behind disk key f entries cs (inr (suc n, at)) ne = inr (n, at)

  -- The first entry is that of `name`, which is filed.
  filed :
      (disk : Disk) (key name : String) (entries : List (Option FileName)) (index : AnyIndex)
      (cs : List (String × Collection))
      → load_index files disk name ≡ Format.ok index
      → Holds disk key cs ⊎ Lists (some (snapshot name) ∷ entries) key
      → Holds disk key (Dict.insert cs name (new name index)) ⊎ Lists entries key
  filed disk key name entries index cs made (inl held) =
      inl (insert-Holds disk key name index cs made (inl held))
  filed disk key name entries index cs made (inr (zero, at)) =
      inl (insert-Holds disk key name index cs made (inr cc))
  filed disk key name entries index cs made (inr (suc n, at)) = inr (n, at)

  -- The loop, where one of the entries is the snapshot, or the collections have it already.
  load_each-Holds :
      (disk : Disk) (key : String)
      → validate_name key ≡ true
      → (entries : List (Option FileName)) (cs cs' : List (String × Collection))
      → (Holds disk key cs ⊎ Lists entries key)
      → load_each files disk entries cs ≡ started cs'
      → Holds disk key cs'
  unfolding load_each
  load_each-Holds disk key valid [] cs cs' (inl held) h =
      let e : cs ≡ cs' = ground (arith, h) in rw e at held
  load_each-Holds disk key valid [] cs cs' (inr (n, at)) h = cc
  load_each-Holds disk key valid (none ∷ entries) cs cs' there h = cc
  load_each-Holds disk key valid (some (temporary name) ∷ entries) cs cs' there h =
      load_each-Holds disk key valid entries cs cs' (behind disk key _ entries cs there (λ e. cc)) h
  load_each-Holds disk key valid (some (other name) ∷ entries) cs cs' there h =
      load_each-Holds disk key valid entries cs cs' (behind disk key _ entries cs there (λ e. cc)) h
  load_each-Holds disk key valid (some (snapshot name) ∷ entries) cs cs' there h =
      elim (Bool-cases (validate_name name)) [
        | inr bad ↦
            load_each-Holds disk key valid entries cs cs'
              (behind disk key _ entries cs there (λ e. ground (arith, bad, valid, e)))
              (rw (bad, load_each) at h)
        | inl ok ↦ elim (Result-cases (load_index files disk name)) [
          | inl (e, failed_) ↦ absurd (not_started (rw (ok, failed_, load_each) at h))
          | inr (index, made) ↦
              load_each-Holds disk key valid entries (Dict.insert cs name (new name index)) cs'
                (filed disk key name entries index cs made there) (rw (ok, made, load_each) at h)
        ]
      ]

  load-Holds :
      DirLaws files
      → (disk : Disk) (is_read_only : Bool) (again : AppState Disk)
      → load files disk is_read_only ≡ started again
      → (key : String) (bytes : List ℕ) → validate_name key ≡ true
      → read disk (snapshot key) ≡ some bytes
      → (c' : Collection) × (Dict.get again.collections key ≡ some c')
        × (read_from bytes ≡ Format.ok c'.index)
  unfolding Holds
  load-Holds laws disk ro again h key bytes valid file =
      let d = (create_dir_all disk).0 in
      let there : read d (snapshot key) ≡ some bytes = laws.made disk (snapshot key) ∙ file in
      let (entries, listing, cs, run, e) = load-started files disk ro again h in
      let (c', at, back) =
        load_each-Holds d key valid entries [] cs
          (inr (laws.listed d entries (snapshot key) bytes listing there)) run in
      let (bytes', file', same) = load_index-read files d key c'.index back in
      let alike : bytes' ≡ bytes = ground (arith, there, file') in
      let whole : cs ≡ again.collections = ap (λ a. a.collections) e in
      (c', ap (λ m. Dict.get m key) (sym whole) ∙ at, rw alike at same)

  -- Where std::fs behaves as documented: a server that has loaded its data directory, answered requests
  -- and run its background task, in any order, leaves on disk all that it has if none of its
  -- collections is marked dirty. A server that then loads that directory has a collection under each
  -- name, whose index is the same, or what is read of the bytes that the index wrote.
  pub load-IsBack :
      FileLaws files
      → DirLaws files
      → (disk : Disk) (is_read_only is_read_only' : Bool) {start end again : AppState Disk}
      → load files disk is_read_only ≡ started start
      → Served files start end
      → ((key : String) (c : Collection) → Dict.get end.collections key ≡ some c → c.dirty ≡ false)
      → load files end.disk is_read_only' ≡ started again
      → (key : String) (c : Collection) → Dict.get end.collections key ≡ some c
      → (c' : Collection) × (Dict.get again.collections key ≡ some c') × IsBack c.index c'.index
  load-IsBack laws dirs disk ro ro' {start} {end} {again} loaded run clean reloaded key c at =
      let served = load-Served-IsServed files laws disk ro loaded run in
      let (bytes, file, origin) = served.kept key c at (clean key c at) in
      let (c', here, back) =
        load-Holds dirs end.disk ro' again reloaded key bytes (served.valid key c at) file in
      (
        c',
        here,
        elim origin [
          | inl wrote ↦ inr (bytes, wrote, back)
          | inr read_back ↦ inl (ok_injective (sym back ∙ read_back))
        ],
      )
