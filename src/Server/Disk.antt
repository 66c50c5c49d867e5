-- ===== src/Server/Disk.antt =====
-- What std::fs promises of the files of the data directory, and what a save makes of it.
use vexdb.Prelude.{
  ℕ, true, false, Option, some, List, get_elem?, ◌≡◌, ◌≢◌, ◌∙◌, String, refl, Bool-cases, ◌⊎◌, inl,
  inr,
}
use vexdb.Platform.{Platform}
use vexdb.Persist.Format
use vexdb.Persist.Format.{Result, Result-cases, SnapshotError, io}
use vexdb.Persist.Any.{AnyIndex, write_to}
use vexdb.Server.{Files, FileName, snapshot, temporary, save}

module _ {Disk : Type 0} (files : Files Disk) where
  open files use {create, write, rename, remove_file, read, create_dir_all, read_dir}

  -- A call changes no file but those that it names. Bytes that were written into a file just created are
  -- its content; a rename that succeeds moves the content, and one that fails changes nothing; a file
  -- that was removed cannot be read.
  pub record FileLaws : Type 0 where
    pub create_rest : (d : Disk) (f g : FileName) → g ≢ f → read (create d f).0 g ≡ read d g
    pub write_rest :
        (d : Disk) (f g : FileName) (bytes : List ℕ) → g ≢ f → read (write d f bytes).0 g ≡ read d g
    pub written :
        (d : Disk) (f : FileName) (bytes : List ℕ)
        → (create d f).1 ≡ true
        → (write (create d f).0 f bytes).1 ≡ true
        → read (write (create d f).0 f bytes).0 f ≡ some bytes
    pub rename_rest :
        (d : Disk) (f g h : FileName) → h ≢ f → h ≢ g → read (rename d f g).0 h ≡ read d h
    pub renamed :
        (d : Disk) (f g : FileName) → (rename d f g).1 ≡ true → read (rename d f g).0 g ≡ read d f
    pub rename_failed :
        (d : Disk) (f g h : FileName)
        → (rename d f g).1 ≡ false
        → read (rename d f g).0 h ≡ read d h
    pub remove_rest : (d : Disk) (f g : FileName) → g ≢ f → read (remove_file d f).0 g ≡ read d g

  -- The directory: to make one that is there changes no file, and a listing names every file that can be
  -- read.
  pub record DirLaws : Type 0 where
    pub made : (d : Disk) (f : FileName) → read (create_dir_all d).0 f ≡ read d f
    pub listed :
        (d : Disk) (entries : List (Option FileName)) (f : FileName) (bytes : List ℕ)
        → read_dir d ≡ some entries
        → read d f ≡ some bytes
        → (n : ℕ) × (get_elem? entries n ≡ some (some f))

  module _ ⦃p : Platform⦄ where
    -- What a save leaves: the snapshot as it is to be, or as it was, and every other file as it was, but
    -- for the temporary one.
    pub record IsAtomic (d : Disk) (name : String) (index : AnyIndex)
        (end : Disk × Result (Unit {0})) : Type 0 where
      pub whole :
          ((end.1 ≡ Format.ok tt)
            × (bytes : List ℕ) × (write_to index ≡ Format.ok bytes)
            × (read end.0 (snapshot name) ≡ some bytes))
          ⊎ ((e : SnapshotError) × (end.1 ≡ Format.err e)
              × (read end.0 (snapshot name) ≡ read d (snapshot name)))
      pub rest : (f : FileName) → f ≢ snapshot name → f ≢ temporary name → read end.0 f ≡ read d f

    module _ (laws : FileLaws) (d : Disk) (name : String) (index : AnyIndex) where
      abbrev d₁ : Disk
      d₁ = (create d (temporary name)).0

      snapshot-ne-temporary : snapshot name ≢ temporary name
      snapshot-ne-temporary e = cc

      created_only : (f : FileName) → f ≢ temporary name → read d₁ f ≡ read d f
      created_only f ne = laws.create_rest d (temporary name) f ne

      module _ (bytes : List ℕ) where
        abbrev d₂ : Disk
        d₂ = (write d₁ (temporary name) bytes).0

        written_only : (f : FileName) → f ≢ temporary name → read d₂ f ≡ read d f
        written_only f ne = laws.write_rest d₁ (temporary name) f bytes ne ∙ created_only f ne

        abbrev d₃ : Disk
        d₃ = (rename d₂ (temporary name) (snapshot name)).0

      -- Where std::fs behaves as documented: after a save, either it succeeded and the snapshot has the bytes
      -- that the index writes, or it failed and the snapshot is as it was; and no other file changed,
      -- but for the temporary one.
      pub save-IsAtomic : IsAtomic d name index (save files d name index)
      unfolding save
      save-IsAtomic = elim (Bool-cases (create d (temporary name)).1) [
        | inr h ↦
            rw (h, save)
              (record {
                whole = inr (io, refl, created_only (snapshot name) snapshot-ne-temporary);
                rest = λ f a b. created_only f b;
              })
        | inl made ↦ elim (Result-cases (write_to index)) [
          | inl (e, h) ↦
              rw (made, h, save)
                (record {
                  whole = inr (e, refl, created_only (snapshot name) snapshot-ne-temporary);
                  rest = λ f a b. created_only f b;
                })
          | inr (bytes, h) ↦ elim (Bool-cases (write d₁ (temporary name) bytes).1) [
            | inr w ↦
                rw (made, h, w, save)
                  (record {
                    whole =
                        inr (io, refl, written_only bytes (snapshot name) snapshot-ne-temporary);
                    rest = λ f a b. written_only bytes f b;
                  })
            | inl w ↦ elim (Bool-cases (rename (d₂ bytes) (temporary name) (snapshot name)).1) [
              | inr r ↦
                  rw (made, h, w, r, save)
                    (record {
                      whole = inr (
                        io,
                        refl,
                        laws.rename_failed (d₂ bytes) (temporary name) (snapshot name)
                              (snapshot name) r
                            ∙ written_only bytes (snapshot name) snapshot-ne-temporary,
                      );
                      rest = λ f a b.
                          laws.rename_failed (d₂ bytes) (temporary name) (snapshot name) f r
                          ∙ written_only bytes f b;
                    })
              | inl r ↦
                  rw (made, h, w, r, save)
                    (record {
                      whole = inl (
                        refl,
                        bytes,
                        h,
                        laws.renamed (d₂ bytes) (temporary name) (snapshot name) r
                            ∙ laws.written d (temporary name) bytes made w,
                      );
                      rest = λ f a b.
                          laws.rename_rest (d₂ bytes) (temporary name) (snapshot name) f b a
                          ∙ written_only bytes f b;
                    })
            ]
          ]
        ]
      ]
