-- ===== src/Quarantine/Files.antt =====
-- The file system as internal/rollback/quarantine.go uses it. A path that stands in no entry does
-- not exist; a path whose entry is `none` exists but `os.Lstat` fails on it. What goes wrong in the
-- renames to come is a script: the code does not choose it.
use safeops_agent.Contracts.Snapshot.{TargetSnapshot, int_eq, ℤ}
use safeops_agent.Prelude.{
  Bool, Dict, Error, List, Option, Option-cases, String, [], ap, arith, eqb, erase, if◌then◌else◌,
  inl, inr, insert, lookup, none, not, refl, some, sym, true, ℕ, ◌||◌, ◌∙◌, ◌∷◌, ◌≡◌, ◌≢◌, ◌⊎◌,
}

-- What `os.Lstat` says of a file: whether it is regular, and what identifies it.
pub record FileInfo : Type 0 where
  pub regular : Bool
  pub inode : ℕ
  pub size : ℤ
  pub mtime : ℤ
  pub mode : ℕ

pub record FileSystem : Type 0 where
  pub files : Dict (Option FileInfo)
  pub faults : List (Option Error)

pub data Presence : Type 0 where
  present absent unknown : Presence

-- The three outcomes of `os.Lstat` that the code tells apart.
abbrev pub presence : Option (Option FileInfo) → Presence
presence none = absent
presence (some none) = unknown
presence (some (some i)) = present

unfoldable pub lstat : String → FileSystem → Presence
lstat path fs = presence (lookup path fs.files)

-- `os.Rename` of a file to a path: what stood there is replaced. It fails where there is no source.
rename_under :
    List (Option Error)
    → Dict (Option FileInfo)
    → Dict (Option FileInfo)
    → Option Error × FileSystem
rename_under [] after before = (none, record { files = after; faults = [] })
rename_under (none ∷ fs) after before = (none, record { files = after; faults = fs })
rename_under (some x ∷ fs) after before = (some x, record { files = before; faults = fs })

unfoldable pub rename : String → String → FileSystem → Option Error × FileSystem
unfolding rename_under
rename source target fs = elim (lookup source fs.files) [
  | none ↦ (some "file does not exist", fs)
  | some i ↦ rename_under fs.faults (insert target i (erase source fs.files)) fs.files
]

rename_under-cases :
    (faults : List (Option Error)) (after before : Dict (Option FileInfo))
    → (((rename_under faults after before).0 ≢ none)
        × ((rename_under faults after before).1.files ≡ before))
      ⊎ (((rename_under faults after before).0 ≡ none)
          × ((rename_under faults after before).1.files ≡ after))
unfolding rename_under
rename_under-cases [] after before = inr (refl, refl)
rename_under-cases (none ∷ fs) after before = inr (refl, refl)
rename_under-cases (some x ∷ fs) after before = inl (λ h. cc, refl)

-- A rename moves the file, or leaves the files as they were and reports an error.
pub rename-cases :
    (source target : String) (fs : FileSystem)
    → (((rename source target fs).0 ≢ none) × ((rename source target fs).1.files ≡ fs.files))
      ⊎ ((i : Option FileInfo) × (lookup source fs.files ≡ some i)
          × ((rename source target fs).0 ≡ none)
          × ((rename source target fs).1.files ≡ insert target i (erase source fs.files)))
rename-cases source target fs = elim (Option-cases (lookup source fs.files)) [
  | inl gone ↦
      let step : rename source target fs ≡ (some "file does not exist", fs) =
        unfold rename in rw (gone, rename) in
      inl (rw step (λ h. cc, refl))
  | inr (i, found) ↦
      let after = insert target i (erase source fs.files) in
      let step : rename source target fs ≡ rename_under fs.faults after fs.files =
        unfold rename in rw (found, rename) in
      elim (rename_under-cases fs.faults after fs.files) [
        | inl (bad, kept) ↦ inl (rw step (bad, kept))
        | inr (fine, now) ↦ inr (i, found, rw step fine, rw step now)
      ]
]

-- `verifyIdentity` and `verifySameIdentity`; `none` is a nil error.
unfoldable pub verify_same_identity : FileInfo → TargetSnapshot → Option Error
verify_same_identity i expected =
    if not (eqb i.inode expected.inode)
      || not (int_eq i.size expected.size)
      || not (int_eq i.mtime expected.mtime_unix_nano)
      || not (eqb i.mode expected.mode)
    then some "inode, size, mtime, or mode changed"
    else none

unfoldable pub verify_identity : String → TargetSnapshot → FileSystem → Option Error
verify_identity path expected fs = elim (lookup path fs.files) [
  | none ↦ some "file does not exist"
  | some seen ↦ elim seen [
    | none ↦ some "file cannot be examined"
    | some i ↦
        if not i.regular
        then some "quarantine supports regular files only"
        else verify_same_identity i expected
  ]
]

-- What a verified path holds depends on that path alone.
pub verify_identity-found :
    (path : String) (expected : TargetSnapshot) (fs : FileSystem)
    → verify_identity path expected fs ≡ none
    → (i : FileInfo) × (lookup path fs.files ≡ some (some i))
      × (i.regular ≡ true)
      × (verify_same_identity i expected ≡ none)
verify_identity-found path expected fs h = elim (Option-cases (lookup path fs.files)) [
  | inl gone ↦
      let stop : verify_identity path expected fs ≡ some "file does not exist" =
        unfold verify_identity in rw (gone, verify_identity) in
      cc
  | inr (seen, found) ↦ elim (Option-cases seen) [
    | inl broken ↦
        let stop : verify_identity path expected fs ≡ some "file cannot be examined" =
          unfold verify_identity in rw (found, verify_identity) (rw broken) in
        cc
    | inr (i, whole) ↦
        let step : verify_identity path expected fs ≡ (
            if not i.regular
            then some "quarantine supports regular files only"
            else verify_same_identity i expected) =
          unfold verify_identity in rw (found, verify_identity) (rw whole) in
        (i, found ∙ ap some whole, ground arith, ground arith)
  ]
]

pub found-verify_identity :
    (path : String) (expected : TargetSnapshot) (fs : FileSystem) (i : FileInfo)
    → lookup path fs.files ≡ some (some i)
    → i.regular ≡ true
    → verify_same_identity i expected ≡ none
    → verify_identity path expected fs ≡ none
unfolding verify_identity verify_same_identity
found-verify_identity path expected fs i found plain alike =
    rw (found, verify_identity) (rw plain alike)

-- A rename that nothing disturbs.
pub rename-free :
    (source target : String) (i : Option FileInfo) (fs : FileSystem)
    → fs.faults ≡ []
    → lookup source fs.files ≡ some i
    → rename source target fs
      ≡ (none, record { files = insert target i (erase source fs.files); faults = [] })
rename-free source target i fs quiet found =
    unfold rename in rw (found, rename) (rw quiet (unfold rename_under in refl))

pub lstat-absent :
    (path : String) (fs : FileSystem) → lookup path fs.files ≡ none → lstat path fs ≡ absent
unfolding lstat
lstat-absent path fs h = rw h

pub lstat-present :
    (path : String) (fs : FileSystem) (i : FileInfo)
    → lookup path fs.files ≡ some (some i)
    → lstat path fs ≡ present
unfolding lstat
lstat-present path fs i h = rw h

pub Presence-cases : (p : Presence) → (p ≡ absent) ⊎ ((p ≡ present) ⊎ (p ≡ unknown))
Presence-cases present = inr (inl refl)
Presence-cases absent = inl refl
Presence-cases unknown = inr (inr refl)

unknown_absent : unknown ≢ absent
unknown_absent h = cc

present_absent : present ≢ absent
present_absent h = cc

pub absent-lookup :
    (path : String) (fs : FileSystem) → lstat path fs ≡ absent → lookup path fs.files ≡ none
absent-lookup path fs h = elim (Option-cases (lookup path fs.files)) [
  | inl gone ↦ gone
  | inr (i, found) ↦ elim (Option-cases i) [
    | inl broken ↦
        let stop : lstat path fs ≡ unknown = unfold lstat in rw (found) (rw broken) in
        absurd (unknown_absent (sym stop ∙ h))
    | inr (j, whole) ↦
        let stop : lstat path fs ≡ present = unfold lstat in rw (found) (rw whole) in
        absurd (present_absent (sym stop ∙ h))
  ]
]
