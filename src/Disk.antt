-- ===== src/Disk.antt =====
-- A directory of files that hold one value each, written by a temporary file and a rename. The
-- content is kept as the value that it decodes to: `some v`, or `none` where reading or decoding it
-- fails. What goes wrong in the writes to come is a script: the code does not choose it.
use safeops_agent.Prelude.{
  Option-cases, ne→==, ◌≢◌, String, List, [], ◌∷◌, Option, none, some, Dict, lookup, insert, erase,
  Error, Result, ok, err, ◌≡◌, refl, lookup-insert, ◌⊎◌, inl, inr, ==-refl,
}

-- A write succeeds; or fails and leaves the old file; or fails when the directory is synchronised,
-- after the rename.
pub data Fault : Type 0 where
  written : Fault
  not_renamed not_synced : Error → Fault

pub record Disk {ℓ} (V : Type ℓ) : Type ℓ where
  pub files : Dict (Option V)
  pub faults : List Fault

abbrev pub missing_file : Error
missing_file = "file does not exist"

module _ {ℓ} {V : Type ℓ} where
  abbrev pub decoded : Option (Option V) → Result V
  decoded none = err missing_file
  decoded (some none) = err "file cannot be decoded"
  decoded (some (some v)) = ok v

  unfoldable pub load : String → Disk V → Result V
  load k d = decoded (lookup k d.files)

  -- One write, under the first fault of the script; an empty script has no more faults.
  write : List Fault → String → V → Dict (Option V) → Option Error × Disk V
  write [] k v m = (none, record { files = insert k (some v) m; faults = [] })
  write (written ∷ fs) k v m = (none, record { files = insert k (some v) m; faults = fs })
  write (not_renamed e ∷ fs) k v m = (some e, record { files = m; faults = fs })
  write (not_synced e ∷ fs) k v m = (some e, record { files = insert k (some v) m; faults = fs })

  unfoldable pub save : String → V → Disk V → Option Error × Disk V
  unfolding write
  save k v d = write d.faults k v d.files

  write-cases :
      (fs : List Fault) (k : String) (v : V) (m : Dict (Option V))
      → ((write fs k v m).1.files ≡ insert k (some v) m)
        ⊎ (((write fs k v m).1.files ≡ m) × ((write fs k v m).0 ≢ none))
  unfolding write
  write-cases [] k v m = inl refl
  write-cases (written ∷ fs) k v m = inl refl
  write-cases (not_renamed e ∷ fs) k v m = inr (refl, λ h. cc)
  write-cases (not_synced e ∷ fs) k v m = inl refl

  -- A write puts the value under its name, or leaves the files as they were and reports an error.
  pub save-cases :
      (k : String) (v : V) (d : Disk V)
      → ((save k v d).1.files ≡ insert k (some v) d.files)
        ⊎ (((save k v d).1.files ≡ d.files) × ((save k v d).0 ≢ none))
  unfolding save
  save-cases k v d = write-cases d.faults k v d.files

  -- Reading a file after a write.
  pub load-save_ne : (k j : String) (v : V) (d : Disk V) → k ≢ j → load j (save k v d).1 ≡ load j d
  unfolding load
  load-save_ne k j v d ne = elim (save-cases k v d) [
    | inl e ↦ rw (e, lookup-insert, ne→== k j ne)
    | inr (e, _) ↦ rw e
  ]

  pub load-save_self :
      (k : String) (v : V) (d : Disk V) → (save k v d).0 ≡ none → load k (save k v d).1 ≡ ok v
  unfolding load
  load-save_self k v d h = elim (save-cases k v d) [
    | inl e ↦ rw (e, lookup-insert, ==-refl k)
    | inr (_, bad) ↦ absurd (bad h)
  ]

  -- Whatever the write reports, the name then holds the value or what it held before.
  pub load-save_either :
      (k : String) (v : V) (d : Disk V)
      → (load k (save k v d).1 ≡ ok v) ⊎ (load k (save k v d).1 ≡ load k d)
  unfolding load
  load-save_either k v d = elim (save-cases k v d) [
    | inl e ↦ inl (rw (e, lookup-insert, ==-refl k))
    | inr (e, _) ↦ inr (rw e)
  ]

  -- `os.Remove` and the synchronisation of the directory, under the first fault of the script.
  erased : List Fault → String → Dict (Option V) → Option Error × Disk V
  erased [] k m = (none, record { files = erase k m; faults = [] })
  erased (written ∷ fs) k m = (none, record { files = erase k m; faults = fs })
  erased (not_renamed e ∷ fs) k m = (some e, record { files = m; faults = fs })
  erased (not_synced e ∷ fs) k m = (some e, record { files = erase k m; faults = fs })

  unfoldable pub remove : String → Disk V → Option Error × Disk V
  unfolding erased
  remove k d = elim (lookup k d.files) [
    | none ↦ (some missing_file, d)
    | some _ ↦ erased d.faults k d.files
  ]

  -- A write and a removal that nothing disturbs.
  pub save-free :
      (k : String) (v : V) (d : Disk V)
      → d.faults ≡ []
      → save k v d ≡ (none, record { files = insert k (some v) d.files; faults = [] })
  unfolding save write
  save-free k v d quiet = rw quiet

  pub remove-free :
      (k : String) (v : Option V) (d : Disk V)
      → d.faults ≡ []
      → lookup k d.files ≡ some v
      → remove k d ≡ (none, record { files = erase k d.files; faults = [] })
  unfolding remove erased
  remove-free k v d quiet found = rw (found, remove) (rw quiet)

  erased-cases :
      (fs : List Fault) (k : String) (m : Dict (Option V))
      → ((erased fs k m).1.files ≡ m) ⊎ ((erased fs k m).1.files ≡ erase k m)
  unfolding erased
  erased-cases [] k m = inr refl
  erased-cases (written ∷ fs) k m = inr refl
  erased-cases (not_renamed e ∷ fs) k m = inl refl
  erased-cases (not_synced e ∷ fs) k m = inr refl

  -- A removal takes the name away, or leaves the files as they were.
  pub remove-cases :
      (k : String) (d : Disk V)
      → ((remove k d).1.files ≡ d.files) ⊎ ((remove k d).1.files ≡ erase k d.files)
  remove-cases k d = elim (Option-cases (lookup k d.files)) [
    | inl gone ↦ inl (unfold remove in rw (gone, remove))
    | inr (v, found) ↦ elim (erased-cases d.faults k d.files) [
      | inl e ↦ inl (unfold remove in rw (found, remove) e)
      | inr e ↦ inr (unfold remove in rw (found, remove) e)
    ]
  ]
