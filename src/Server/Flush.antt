-- ===== src/Server/Flush.antt =====
-- `Collection::flush` and `AppState::flush_all` of crates/vex-server/src/state.rs, against the disk.
use vexdb.Prelude.{
  ℕ, Bool, true, false, not, ◌&&◌, Option, none, some, List, [], ◌∷◌, ◌≡◌, ◌≢◌, ◌⊎◌, refl, sym, ◌∙◌,
  arith, String, Bool-cases, inl, inr,
}
use vexdb.Platform.{Platform}
use vexdb.Collections.Dict
use vexdb.Collections.Dict.{string_eq}
use vexdb.Collections.Unique.{IsUnique}
use vexdb.Persist.Format
use vexdb.Persist.Format.{Result, SnapshotError}
use vexdb.Persist.Any.{AnyIndex, write_to, read_from}
use vexdb.Server.{
  Reply, done, failed, internal, Files, snapshot, Collection, flush, finish_flush, flush_each, save,
}
use vexdb.Server.Disk.{FileLaws, IsAtomic, save-IsAtomic}

module _ ⦃p : Platform⦄ where
  -- A file has what the index writes, or what the index was read from.
  abbrev pub Keeps : Option (List ℕ) → AnyIndex → Type 0
  Keeps file index =
      (bytes : List ℕ) × (file ≡ some bytes)
      × ((write_to index ≡ Format.ok bytes) ⊎ (read_from bytes ≡ Format.ok index))

  -- Each collection is filed under its name.
  abbrev pub Named : List (String × Collection) → Type 0
  Named cs = (key : String) (c : Collection) → Dict.get cs key ≡ some c → c.name ≡ key

  module _ {Disk : Type 0} (files : Files Disk) where
    open files use {read}

    -- `disk'` has the snapshots of `disk`, but for that of `name`.
    abbrev pub Others : Disk → String → Disk → Type 0
    Others disk name disk' =
        (key : String) → key ≢ name → read disk' (snapshot key) ≡ read disk (snapshot key)

    -- The three outcomes of a flush.
    pub data IsFlushed (disk : Disk) (c : Collection) (force : Bool)
        : (Disk × Collection) × Reply Bool → Type 0 where
      idle : force ≡ false → c.dirty ≡ false → IsFlushed disk c force ((disk, c), done false)
      written :
          (disk' : Disk)
          → Keeps (read disk' (snapshot c.name)) c.index
          → Others disk c.name disk'
          → IsFlushed disk c force ((disk', record c { dirty = false }), done true)
      unwritten :
          (disk' : Disk)
          → ((key : String) → read disk' (snapshot key) ≡ read disk (snapshot key))
          → IsFlushed disk c force ((disk', c), failed internal)

    saved-IsFlushed :
        (disk : Disk) (c : Collection) (force : Bool) (end : Disk × Result (Unit {0}))
        → IsAtomic files disk c.name c.index end
        → IsFlushed disk c force (finish_flush c end)
    unfolding finish_flush
    saved-IsFlushed disk c force (disk', Format.ok _) atomic = elim atomic.whole [
      | inl (_, bytes, wrote, file) ↦
          written disk' (bytes, file, inl wrote)
            λ key ne. atomic.rest (snapshot key) (λ e. ne cc) (λ e. cc)
      | inr (e, failed_, same) ↦ cc
    ]
    saved-IsFlushed disk c force (disk', Format.err e) atomic = elim atomic.whole [
      | inl (h, _, _, _) ↦ cc
      | inr (_, _, same) ↦ unwritten disk' λ key. elim (Bool-cases (string_eq.beq key c.name)) [
        | inl h ↦ let alike : key ≡ c.name = (string_eq.beq_iff key c.name).0 h in rw alike same
        | inr h ↦
            atomic.rest (snapshot key)
              (λ e.
                let alike : key ≡ c.name = cc in
                ground (arith, h, (string_eq.beq_iff key c.name).1 alike))
              (λ e. cc)
      ]
    ]

    pub flush-IsFlushed :
        FileLaws files
        → (disk : Disk) (c : Collection) (force : Bool)
        → IsFlushed disk c force (flush files disk c force)
    unfolding flush
    flush-IsFlushed laws disk c force = elim (Bool-cases (not force && not c.dirty)) [
      | inl h ↦ rw (h, flush) (idle (ground (arith, h)) (ground (arith, h)))
      | inr h ↦
          rw (h, flush)
            (saved-IsFlushed disk c force (save files disk c.name c.index)
              (save-IsAtomic files laws disk c.name c.index))
    ]

    -- What a flush of the collections `cs` leaves: `cs'`.
    pub record AreFlushed (disk : Disk) (cs : List (String × Collection)) (disk' : Disk)
        (cs' : List (String × Collection)) : Type 0 where
      pub absent : (key : String) → Dict.get cs key ≡ none → Dict.get cs' key ≡ none
      pub others :
          (key : String)
          → Dict.get cs key ≡ none
          → read disk' (snapshot key) ≡ read disk (snapshot key)
      pub same :
          (key : String) (c' : Collection)
          → Dict.get cs' key ≡ some c'
          → (c : Collection) × (Dict.get cs key ≡ some c)
            × (c'.name ≡ c.name)
            × (c'.index ≡ c.index)
            × ((c.dirty ≡ false → Keeps (read disk (snapshot key)) c.index)
                → c'.dirty ≡ false
                → Keeps (read disk' (snapshot key)) c'.index)
      pub unique : IsUnique cs'

    -- A collection after a flush: its index is as it was, and if its snapshot had it, it has it still.
    pub flushed-Others :
        {disk : Disk} {c : Collection} {force : Bool} {one : (Disk × Collection) × Reply Bool}
        → IsFlushed disk c force one
        → Others disk c.name one.0.0
    flushed-Others (idle unforced clean) key ne = refl
    flushed-Others (written disk' kept others) key ne = others key ne
    flushed-Others (unwritten disk' same) key ne = same key

    pub flushed_same :
        {disk : Disk} {c : Collection} {force : Bool} {one : (Disk × Collection) × Reply Bool}
        → IsFlushed disk c force one
        → (one.0.1.name ≡ c.name)
          × (one.0.1.index ≡ c.index)
          × ((c.dirty ≡ false → Keeps (read disk (snapshot c.name)) c.index)
              → one.0.1.dirty ≡ false
              → Keeps (read one.0.0 (snapshot c.name)) one.0.1.index)
    flushed_same (idle unforced clean) = (refl, refl, λ kept h. kept h)
    flushed_same (written disk' kept others) = (refl, refl, λ _ _. kept)
    flushed_same (unwritten disk' same) = (refl, refl, λ kept h. rw same (kept h))

    module _ (disk : Disk) (k : String) (c : Collection) (force : Bool)
        (cs : List (String × Collection)) (one : (Disk × Collection) × Reply Bool) (disk₂ : Disk)
        (cs' : List (String × Collection)) (named : c.name ≡ k) (new : Dict.get cs k ≡ none)
        (first : IsFlushed disk c force one) (rest : AreFlushed one.0.0 cs disk₂ cs') where
      first_kept :
          (c.dirty ≡ false → Keeps (read disk (snapshot k)) c.index)
          → one.0.1.dirty ≡ false
          → Keeps (read disk₂ (snapshot k)) one.0.1.index
      first_kept before clean =
          let (name, index, kept) = flushed_same first in
          rw (rest.others k new) (rw named at (kept (λ dc. rw named (before dc)) clean))

      -- One collection first, then the others.
      cons-AreFlushed : AreFlushed disk ((k, c) ∷ cs) disk₂ ((k, one.0.1) ∷ cs')
      unfolding Dict.get IsUnique
      cons-AreFlushed = record {
        absent = λ key h. ground (arith, h, rest.absent key);
        others = λ key h. elim (Bool-cases (string_eq.beq k key)) [
          | inl e ↦ absurd (ground (arith, h, e))
          | inr ne ↦
              rest.others key (ground (arith, h, ne))
              ∙ flushed-Others first key
                  (λ e. ground (arith, ne, named, (string_eq.beq_iff k key).1))
        ];
        same = λ key c' h. elim (Bool-cases (string_eq.beq k key)) [
          | inl e ↦
              let alike : k ≡ key = (string_eq.beq_iff k key).0 e in
              let here : one.0.1 ≡ c' = ground (arith, e, h) in
              let (name, index, _) = flushed_same first in
              rw (sym here, sym alike) (c, ground (arith, Dict.beq_refl k), name, index, first_kept)
          | inr ne ↦
              let (d, at, name, index, kept) = rest.same key c' (ground (arith, h, ne)) in
              let other : key ≢ c.name =
                λ e. ground (arith, ne, named, (string_eq.beq_iff k key).1) in
              (
                d,
                ground (arith, ne, at),
                name,
                index,
                λ before clean. kept (λ dc. rw (flushed-Others first key other) (before dc)) clean,
              )
        ];
        unique = (rest.absent k new, rest.unique);
      }

    pub flush_each-AreFlushed :
        FileLaws files
        → (disk : Disk) (cs : List (String × Collection)) (force : Bool) → IsUnique cs
        → Named cs
        → AreFlushed disk cs
            (flush_each files disk cs force).0.0
            (flush_each files disk cs force).0.1
    unfolding flush_each IsUnique Dict.get
    flush_each-AreFlushed laws disk [] force unique named = record {
      absent = λ key h. h;
      others = λ key h. refl;
      same = λ key c' h. cc;
      unique = tt;
    }
    flush_each-AreFlushed laws disk ((k, c) ∷ cs) force (new, unique) named =
        let one = flush files disk c force in
        let named_rest : Named cs =
          λ key d h. named key d (ground (arith, h, new, string_eq.beq_iff k key)) in
        cons-AreFlushed disk k c force cs one _ _ (named k c (ground (arith, Dict.beq_refl k))) new
          (flush-IsFlushed laws disk c force)
          (flush_each-AreFlushed laws one.0.0 cs force unique named_rest)
