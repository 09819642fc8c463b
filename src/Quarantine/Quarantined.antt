-- ===== src/Quarantine/Quarantined.antt =====
-- internal/rollback/quarantine.go: what a quarantine comes to.
use safeops_agent.Contracts.Snapshot.{TargetSnapshot, snapshot_digest}
use safeops_agent.Disk.{Disk}
use safeops_agent.Prelude.{
  >>=-eq-ok, Bool, Error, Option, Option-cases, Result, Result-cases, String, ap, arith, err, false,
  inl, inr, lookup, none, not, ok, refl, refuse_if-eq-ok, some, subst, sym, true, ℕ, ◌∙◌, ◌≡◌,
}
use safeops_agent.Quarantine.Files.{
  FileSystem, Presence, absent, absent-lookup, lstat, present, unknown, verify_identity,
}
use safeops_agent.Quarantine.Kept.{Moved, Unchanged, moved, stuck, transfer-Transferred, undone}
use safeops_agent.Quarantine.Manager.{
  Environment, Manifest, Operation, QuarantineManager, State, committed, fail_on, prepare, prepared,
  quarantine, quarantine_checks, quarantine_labels, require_absent, save_new, transfer, within_any,
}
use safeops_agent.Disk

-- What `Quarantine` has found out when it begins to change something.
pub record Admitted (env : Environment) (m : QuarantineManager) (expected : TargetSnapshot)
    (fs : FileSystem) (r : Manifest) : Type 0 where
  pub resolved : env.eval_symlinks expected.canonical_path ≡ ok r.original_path
  pub allowed : within_any r.original_path m.lab_roots ≡ true
  pub alike : verify_identity r.original_path expected fs ≡ none
  pub vacant : lookup r.quarantined_path fs.files ≡ none
  pub snapshot : r.original_snapshot ≡ expected
  pub status : r.status ≡ prepared

pub no_result {ℓ} : {A : Type ℓ} {a : A} {e : Error} → ◌≡◌ {A = Result A} (err e) (ok a) → ⊥
no_result h = cc

pub ok_injective {ℓ} : {A : Type ℓ} {a b : A} → ◌≡◌ {A = Result A} (ok a) (ok b) → a ≡ b
ok_injective h = cc

fail_on-ok : (label : Error) (o : Option Error) {u : Unit {0}} → fail_on label o ≡ ok u → o ≡ none
unfolding fail_on
fail_on-ok label none h = refl
fail_on-ok label (some x) h = absurd (no_result h)

presence_absent :
    (e : Error) (p : Presence) {u : Unit {0}}
    → (elim p [ absent ↦ ok tt | present ↦ err e | unknown ↦ err "file cannot be examined" ]) ≡ ok u
    → p ≡ absent
presence_absent e absent h = refl
presence_absent e present h = absurd (no_result h)
presence_absent e unknown h = absurd (no_result h)

require_absent-ok :
    (path : String) (e : Error) (fs : FileSystem) {u : Unit {0}}
    → require_absent path e fs ≡ ok u
    → lookup path fs.files ≡ none
unfolding require_absent
require_absent-ok path e fs h = absent-lookup path fs (presence_absent e (lstat path fs) h)

true_test : (b : Bool) → not b ≡ false → b ≡ true
true_test b h = ground arith

pub prepare-Admitted :
    (env : Environment) (m : QuarantineManager) (task nonce : String) (expected : TargetSnapshot)
    (now : ℕ) (fs : FileSystem) (r : Manifest)
    → prepare env m task nonce expected now fs ≡ ok r
    → Admitted env m expected fs r
unfolding prepare
prepare-Admitted env m task nonce expected now fs r h =
    let (_, h1) = refuse_if-eq-ok _ _ _ h in
    let (path, resolved, h2) = >>=-eq-ok (env.eval_symlinks expected.canonical_path) _ h1 in
    let (allowed, h3) = refuse_if-eq-ok _ _ _ h2 in
    let (_, alike, h4) =
      >>=-eq-ok (fail_on "TARGET_CHANGED: " (verify_identity path expected fs)) _ h3 in
    let (digest, _, h5) = >>=-eq-ok (snapshot_digest _ _ expected) _ h4 in
    let (_, vacant, h6) = >>=-eq-ok (require_absent _ _ fs) _ h5 in
    let made = ok_injective h6 in
    let path_is : path ≡ r.original_path = ap (λ (q : Manifest). q.original_path) made in
    record {
      resolved = resolved ∙ ap ok path_is;
      allowed = subst (λ p. within_any p m.lab_roots ≡ true) path_is (true_test _ allowed);
      alike = subst (λ p. verify_identity p expected fs ≡ none) path_is (fail_on-ok _ _ alike);
      vacant =
          ap (λ (q : Manifest). lookup q.quarantined_path fs.files) (sym made)
          ∙ require_absent-ok _ _ fs vacant;
      snapshot = sym (ap (λ (q : Manifest). q.original_snapshot) made);
      status = sym (ap (λ (q : Manifest). q.status) made);
    }

-- The file was admitted, the manifest is recorded as committed under a name that was free, and the
-- file is moved to the object's path and verified there.
pub record Taken (env : Environment) (m : QuarantineManager) (expected : TargetSnapshot)
    (before : State) (r : Manifest) (after : State) : Type 0 where
  pub admitted : Admitted env m expected before.system (record r { status = prepared })
  pub status : r.status ≡ committed
  pub fresh : lookup r.id before.manifests.files ≡ none
  pub noted : Disk.load r.id after.manifests ≡ ok r
  pub alike : verify_identity r.quarantined_path expected after.system ≡ none
  pub there : Moved r.original_path r.quarantined_path before.system.files after.system.files

-- What `Quarantine` comes to.
pub data Quarantined (env : Environment) (m : QuarantineManager) (expected : TargetSnapshot)
    (before : State) (result : Result Operation) (after : State) : Type 0 where
  taken :
      (op : Operation)
      → result ≡ ok op
      → Taken env m expected before op.manifest after
      → Quarantined env m expected before result after
  refused :
      (e : Error)
      → result ≡ err e
      → Unchanged before.system.files after.system.files
      → Quarantined env m expected before result after
  held :
      (e : Error) (r : Manifest)
      → result ≡ err e
      → Admitted env m expected before.system r
      → Moved r.original_path r.quarantined_path before.system.files after.system.files
      → Quarantined env m expected before result after

no_error : {x : Error} → ◌≡◌ {A = Option Error} (some x) none → ⊥
no_error h = cc

save_new-fresh :
    (r : Manifest) (d : Disk Manifest) → (save_new r d).0 ≡ none → lookup r.id d.files ≡ none
save_new-fresh r d h = elim (Option-cases (lookup r.id d.files)) [
  | inl fresh ↦ fresh
  | inr (old, found) ↦
      let stop : save_new r d ≡ (some "file exists", d) = unfold save_new in rw (found, save_new) in
      absurd (no_error (ap (λ q. q.0) (sym stop) ∙ h))
]

-- The transfer of `Quarantine`.
abbrev move : Manifest → TargetSnapshot → ℕ → State → Result Operation × State
move r expected now' s =
    transfer quarantine_labels r.original_path r.quarantined_path expected
      (record r { status = committed; committed_at = now' }) quarantine_checks s

move-Quarantined :
    (env : Environment) (m : QuarantineManager) (expected : TargetSnapshot) (r : Manifest)
    (now' : ℕ) (s : State) (d : Disk Manifest)
    → Admitted env m expected s.system r
    → lookup r.id s.manifests.files ≡ none
    → Quarantined env m expected s
        (move r expected now' (record { system = s.system; manifests = d })).0
        (move r expected now' (record { system = s.system; manifests = d })).1
move-Quarantined env m expected r now' s d admitted fresh =
    let finished : Manifest = record r { status = committed; committed_at = now' } in
    elim (transfer-Transferred quarantine_labels r.original_path r.quarantined_path expected
      finished quarantine_checks (record { system = s.system; manifests = d }) admitted.vacant) [
        | undone e bad same ↦ refused e bad same
        | stuck e bad there ↦ held e r bad admitted there
        | moved op good is there alike noted ↦
            let after : State =
              (move r expected now' (record { system = s.system; manifests = d })).1 in
            let facts : Taken env m expected s finished after = record {
              admitted = record {
                resolved = admitted.resolved;
                allowed = admitted.allowed;
                alike = admitted.alike;
                vacant = admitted.vacant;
                snapshot = admitted.snapshot;
                status = refl;
              };
              status = refl;
              fresh = fresh;
              noted = noted;
              alike = alike;
              there = there;
            } in
            taken op good (subst (λ (q : Manifest). Taken env m expected s q after) (sym is) facts)
      ]

-- A quarantine takes a file into the objects directory, or leaves every file where it is, or
-- reports an error with the file in the objects directory.
pub quarantine-Quarantined :
    (env : Environment) (m : QuarantineManager) (cancelled : Option Error) (task nonce : String)
    (expected : TargetSnapshot) (now now' : ℕ) (s : State)
    → Quarantined env m expected s
        (quarantine env m cancelled task nonce expected now now' s).0
        (quarantine env m cancelled task nonce expected now now' s).1
unfolding quarantine
quarantine-Quarantined env m (some e) task nonce expected now now' s = refused e refl (λ j. refl)
quarantine-Quarantined env m none task nonce expected now now' s =
    let Good : Result Operation × State → Type 0 = λ q. Quarantined env m expected s q.0 q.1 in
    elim (Result-cases (prepare env m task nonce expected now s.system)) [
      | inl (e, failing) ↦
          let step : quarantine env m none task nonce expected now now' s ≡ (err e, s) =
            rw (failing, quarantine) in
          subst Good (sym step) (refused e refl (λ j. refl))
      | inr (r, fine) ↦
          let admitted = prepare-Admitted env m task nonce expected now s.system r fine in
          let s' : State = record { system = s.system; manifests = (save_new r s.manifests).1 } in
          elim (Option-cases (save_new r s.manifests).0) [
            | inr (x, unsaved) ↦
                let step : quarantine env m none task nonce expected now now' s ≡ (err x, s') =
                  rw (fine, quarantine) (rw unsaved) in
                subst Good (sym step) (refused x refl (λ j. refl))
            | inl saved ↦
                let step : quarantine env m none task nonce expected now now' s
                    ≡ move r expected now' s' =
                  rw (fine, quarantine) (rw saved) in
                subst Good (sym step) (
                  move-Quarantined env m expected r now' s _ admitted
                    (save_new-fresh r s.manifests saved))
          ]
    ]
