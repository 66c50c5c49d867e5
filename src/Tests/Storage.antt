-- ===== src/Tests/Storage.antt =====
-- A disk that is a map from file name to bytes.
use vexdb.Prelude.{
  ℕ, zero, suc, Bool, true, false, Option, none, some, List, [], ◌∷◌, ◌≡◌, ◌≢◌, ◌↔◌, refl, sym,
  arith, get_elem?, Bool-cases, Option-cases, inl, inr,
}
use vexdb.Collections.Dict
use vexdb.Collections.Dict.{Eq, string_eq}
use vexdb.Server.{Files, FileName, snapshot, temporary, other}
use vexdb.Server.Disk.{FileLaws, DirLaws}

abbrev pub same_file : FileName → FileName → Bool
same_file (snapshot a) (snapshot b) = string_eq.beq a b
same_file (temporary a) (temporary b) = string_eq.beq a b
same_file (other a) (other b) = string_eq.beq a b
same_file _ _ = false

pub same_file_iff : (f g : FileName) → (same_file f g ≡ true) ↔ (f ≡ g)
same_file_iff (snapshot a) (snapshot b) =
    (λ h. rw ((string_eq.beq_iff a b).0 h) refl, λ e. (string_eq.beq_iff a b).1 cc)
same_file_iff (snapshot a) (temporary b) = (λ h. cc, λ e. cc)
same_file_iff (snapshot a) (other b) = (λ h. cc, λ e. cc)
same_file_iff (temporary a) (snapshot b) = (λ h. cc, λ e. cc)
same_file_iff (temporary a) (temporary b) =
    (λ h. rw ((string_eq.beq_iff a b).0 h) refl, λ e. (string_eq.beq_iff a b).1 cc)
same_file_iff (temporary a) (other b) = (λ h. cc, λ e. cc)
same_file_iff (other a) (snapshot b) = (λ h. cc, λ e. cc)
same_file_iff (other a) (temporary b) = (λ h. cc, λ e. cc)
same_file_iff (other a) (other b) =
    (λ h. rw ((string_eq.beq_iff a b).0 h) refl, λ e. (string_eq.beq_iff a b).1 cc)

instance abbrev pub file_eq : Eq FileName
file_eq = record { beq = same_file; beq_iff = same_file_iff }

abbrev pub Drive : Type 0
Drive = List (FileName × List ℕ)

abbrev pub names : Drive → List (Option FileName)
names [] = []
names ((f, bytes) ∷ d) = some f ∷ names d

-- A rename fails where there is no such file.
abbrev pub move : Drive → FileName → FileName → Drive × Bool
move d f g = elim (Dict.get d f) [
  | none ↦ (d, false)
  | some bytes ↦ (Dict.insert (Dict.remove d f) g bytes, true)
]

abbrev pub drive : Files Drive
drive = record {
  create = λ d f. (Dict.insert d f [], true);
  write = λ d f bytes. (Dict.insert d f bytes, true);
  rename = move;
  remove_file = λ d f. (Dict.remove d f, Dict.contains_key d f);
  exists = λ d f. Dict.contains_key d f;
  read = λ d f. Dict.get d f;
  create_dir_all = λ d. (d, true);
  read_dir = λ d. some (names d);
}

apart : (f g : FileName) → g ≢ f → same_file f g ≡ false
apart f g ne = elim (Bool-cases (same_file f g)) [
  | inl h ↦ absurd (ne (sym ((same_file_iff f g).0 h)))
  | inr h ↦ h
]

move_rest :
    (d : Drive) (f g h : FileName) → h ≢ f → h ≢ g → Dict.get (move d f g).0 h ≡ Dict.get d h
move_rest d f g h nf ng = elim (Option-cases (Dict.get d f)) [
  | inl absent ↦ rw (absent, move) refl
  | inr (bytes, at) ↦
      rw (at, move)
        (rw
          (
            Dict.get-insert (Dict.remove d f) g bytes h,
            apart g h ng,
            Dict.get-remove d f h,
            apart f h nf,
          )
          refl)
]

moved :
    (d : Drive) (f g : FileName) → (move d f g).1 ≡ true → Dict.get (move d f g).0 g ≡ Dict.get d f
moved d f g done = elim (Option-cases (Dict.get d f)) [
  | inl absent ↦ let e : false ≡ true = rw (absent, move) at done in cc
  | inr (bytes, at) ↦ rw (at, move) (Dict.get-insert_self (Dict.remove d f) g bytes)
]

unmoved :
    (d : Drive) (f g h : FileName)
    → (move d f g).1 ≡ false
    → Dict.get (move d f g).0 h ≡ Dict.get d h
unmoved d f g h failed = elim (Option-cases (Dict.get d f)) [
  | inl absent ↦ rw (absent, move) refl
  | inr (bytes, at) ↦ let e : true ≡ false = rw (at, move) at failed in cc
]

pub drive-FileLaws : FileLaws drive
drive-FileLaws = record {
  create_rest = λ d f g ne. rw (Dict.get-insert d f [] g, apart f g ne) refl;
  write_rest = λ d f g bytes ne. rw (Dict.get-insert d f bytes g, apart f g ne) refl;
  written = λ d f bytes made wrote. Dict.get-insert_self (Dict.insert d f []) f bytes;
  rename_rest = move_rest;
  renamed = moved;
  rename_failed = unmoved;
  remove_rest = λ d f g ne. rw (Dict.get-remove d f g, apart f g ne) refl;
}

listed_at :
    (d : Drive) (f : FileName) (bytes : List ℕ)
    → Dict.get d f ≡ some bytes
    → (n : ℕ) × (get_elem? (names d) n ≡ some (some f))
unfolding Dict.get
listed_at [] f bytes h = cc
listed_at ((g, b) ∷ d) f bytes h = elim (Bool-cases (same_file g f)) [
  | inl e ↦ (zero, rw ((same_file_iff g f).0 e) refl)
  | inr ne ↦ let (n, at) = listed_at d f bytes (rw ne at h) in (suc n, at)
]

pub drive-DirLaws : DirLaws drive
drive-DirLaws = record {
  made = λ d f. refl;
  listed = λ d entries f bytes listing file.
      let e : names d ≡ entries = ground (arith, listing) in rw e at (listed_at d f bytes file);
}
