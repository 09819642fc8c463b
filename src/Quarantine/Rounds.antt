-- ===== src/Quarantine/Rounds.antt =====
-- internal/rollback/quarantine.go: what the rounds of `Recover` leave alone.
use safeops_agent.Disk.{Disk, remove, remove-cases, save, save-cases}
use safeops_agent.Prelude.{
  ==→eq, Bool-cases, Dict, Error, List, Option, Option-cases, Result-cases, String, [], ap, arith,
  erase, err, false, inl, inr, insert, lookup, lookup-erase, lookup-insert, ne→==, none, ok, refl,
  some, subst, sym, true, ℕ, ◌==◌, ◌∙◌, ◌∷◌, ◌≡◌, ◌≢◌,
}
use safeops_agent.Quarantine.Files.{Presence-cases, lstat, verify_identity}
use safeops_agent.Quarantine.Manager.{
  Manifest, State, committed, is_quarantine_id, is_status, prepared,
}
use safeops_agent.Quarantine.Quarantined.{no_result, ok_injective}
use safeops_agent.Quarantine.Restore.{load, reconcile, recover, recover_one}
use safeops_agent.Disk

-- What one round of `Recover` does: nothing, or one call that removes or writes the manifest that
-- it has read as prepared.
data Round (id : String) (s after : State) : Type 0 where
  kept : after ≡ s → Round id s after
  dropped :
      (r : Manifest)
      → lookup id s.manifests.files ≡ some (some r)
      → is_status r.status prepared ≡ true
      → after ≡ record s { manifests = (Disk.remove r.id s.manifests).1 }
      → Round id s after
  rewritten :
      (r q : Manifest)
      → lookup id s.manifests.files ≡ some (some r)
      → is_status r.status prepared ≡ true
      → q.id ≡ r.id
      → after ≡ record s { manifests = (Disk.save r.id q s.manifests).1 }
      → Round id s after

reconcile-Round :
    (now : ℕ) (id : String) (r : Manifest) (s : State)
    → lookup id s.manifests.files ≡ some (some r)
    → Round id s (reconcile now r s).1
reconcile-Round now id r s found = elim (Bool-cases (is_status r.status prepared)) [
  | inr other ↦ kept (unfold reconcile in rw (other, reconcile))
  | inl one ↦ elim (Presence-cases (lstat r.original_path s.system)) [
    | inl gone ↦ elim (Presence-cases (lstat r.quarantined_path s.system)) [
      | inl none_ ↦ kept (unfold reconcile in rw (one, reconcile) (rw gone (rw none_)))
      | inr (inr odd) ↦ kept (unfold reconcile in rw (one, reconcile) (rw gone (rw odd)))
      | inr (inl here) ↦
          elim (Option-cases (verify_identity r.quarantined_path r.original_snapshot s.system)) [
            | inr (x, bad) ↦
                kept (unfold reconcile in rw (one, reconcile) (rw gone (rw here (rw bad))))
            | inl fine ↦
                rewritten r (record r { status = committed; committed_at = now }) found one refl
                  (unfold reconcile in rw (one, reconcile) (rw gone (rw here (rw fine))))
          ]
    ]
    | inr (inr odd) ↦ kept (unfold reconcile in rw (one, reconcile) (rw odd))
    | inr (inl here) ↦ elim (Presence-cases (lstat r.quarantined_path s.system)) [
      | inl gone ↦ dropped r found one (unfold reconcile in rw (one, reconcile) (rw here (rw gone)))
      | inr (inr odd) ↦ kept (unfold reconcile in rw (one, reconcile) (rw here (rw odd)))
      | inr (inl there) ↦ kept (unfold reconcile in rw (one, reconcile) (rw here (rw there)))
    ]
  ]
]

-- Every manifest is in the file of its ID.
abbrev pub IsNamed : Disk Manifest → Type 0
IsNamed d = (k : String) (r : Manifest) → lookup k d.files ≡ some (some r) → r.id ≡ k

-- What a call of `Recover` keeps: the files, and every manifest that is not prepared.
pub record Keeps (s after : State) : Type 0 where
  pub same_system : after.system ≡ s.system
  pub named : IsNamed after.manifests
  pub same_manifest :
      (k : String) (r : Manifest)
      → lookup k s.manifests.files ≡ some (some r)
      → is_status r.status prepared ≡ false
      → lookup k after.manifests.files ≡ some (some r)

value_eq :
    {a b : Manifest} → ◌≡◌ {A = Option (Option Manifest)} (some (some a)) (some (some b)) → a ≡ b
value_eq h = cc

status_apart :
    (m : Dict (Option Manifest)) (id : String) (r q : Manifest)
    → lookup id m ≡ some (some q)
    → lookup id m ≡ some (some r)
    → is_status r.status prepared ≡ true
    → is_status q.status prepared ≡ false
    → ⊥
status_apart m id r q h k one other =
    let e = value_eq (sym h ∙ k) in
    let t = ap (λ (x : Manifest). is_status x.status prepared) e in ground (arith, t, one, other)

left_of :
    (k j : String) (m : Dict (Option Manifest)) {v : Option Manifest}
    → lookup j (erase k m) ≡ some v
    → lookup j m ≡ some v
left_of k j m h = let e = lookup-erase k j m in ground (arith, e, h)

erased-Keeps :
    (s : State) (id : String) (r : Manifest) (d : Disk Manifest)
    → IsNamed s.manifests
    → lookup id s.manifests.files ≡ some (some r)
    → is_status r.status prepared ≡ true
    → d.files ≡ erase r.id s.manifests.files
    → Keeps s (record s { manifests = d })
erased-Keeps s id r d named found one now = record {
  same_system = refl;
  named = λ k q at. named k q (left_of r.id k s.manifests.files (sym (ap (lookup k) now) ∙ at));
  same_manifest = λ k q at other.
      let apart : r.id ≢ k = λ e.
        status_apart s.manifests.files id r q
          (subst (λ j. lookup j s.manifests.files ≡ some (some q)) (sym e ∙ named id r found) at)
          found one other in
      ap (lookup k) now ∙ rw (lookup-erase, ne→== r.id k apart) at;
}

inserted-Keeps :
    (s : State) (id : String) (r q : Manifest) (d : Disk Manifest)
    → IsNamed s.manifests
    → lookup id s.manifests.files ≡ some (some r)
    → is_status r.status prepared ≡ true
    → q.id ≡ r.id
    → d.files ≡ insert r.id (some q) s.manifests.files
    → Keeps s (record s { manifests = d })
inserted-Keeps s id r q d named found one same now = record {
  same_system = refl;
  named = λ k p at. elim (Bool-cases (r.id == k)) [
    | inl hit ↦
        let it = ap (lookup k) (sym now) ∙ at in
        let p_is : q ≡ p = value_eq (sym (rw (lookup-insert, hit)) ∙ it) in
        ap (λ (x : Manifest). x.id) (sym p_is) ∙ same ∙ ==→eq r.id k hit
    | inr miss ↦ named k p (sym (rw (lookup-insert, miss)) ∙ ap (lookup k) (sym now) ∙ at)
  ];
  same_manifest = λ k p at other.
      let apart : r.id ≢ k = λ e.
        status_apart s.manifests.files id r p
          (subst (λ j. lookup j s.manifests.files ≡ some (some p)) (sym e ∙ named id r found) at)
          found one other in
      ap (lookup k) now ∙ rw (lookup-insert, ne→== r.id k apart) at;
}

same-Keeps :
    (s : State) (d : Disk Manifest)
    → IsNamed s.manifests
    → d.files ≡ s.manifests.files
    → Keeps s (record s { manifests = d })
same-Keeps s d named e = record {
  same_system = refl;
  named = λ k q at. named k q (ap (lookup k) (sym e) ∙ at);
  same_manifest = λ k q at _. ap (lookup k) e ∙ at;
}

Round-Keeps :
    (id : String) (s after : State) → IsNamed s.manifests → Round id s after → Keeps s after
Round-Keeps id s after named (kept e) =
    subst (Keeps s) (sym e) (same-Keeps s s.manifests named refl)
Round-Keeps id s after named (dropped r found one e) =
    subst (Keeps s) (sym e) (elim (remove-cases r.id s.manifests) [
      | inl left ↦ same-Keeps s _ named left
      | inr gone ↦ erased-Keeps s id r _ named found one gone
    ])
Round-Keeps id s after named (rewritten r q found one same e) =
    subst (Keeps s) (sym e) (elim (save-cases r.id q s.manifests) [
      | inl now ↦ inserted-Keeps s id r q _ named found one same now
      | inr (left, _) ↦ same-Keeps s _ named left
    ])

decoded-ok :
    (o : Option (Option Manifest)) (r : Manifest) → Disk.decoded o ≡ ok r → o ≡ some (some r)
decoded-ok none r h = absurd (no_result h)
decoded-ok (some none) r h = absurd (no_result h)
decoded-ok (some (some q)) r h = ap (λ x. some (some x)) (ok_injective h)

loaded :
    (id : String) (d : Disk Manifest) (r : Manifest)
    → load id d ≡ ok r
    → lookup id d.files ≡ some (some r)
loaded id d r h = elim (Bool-cases (is_quarantine_id id)) [
  | inr bad ↦
      let stop : load id d ≡ err "invalid quarantine ID" = unfold load in rw (bad, load) in
      absurd (no_result (sym stop ∙ h))
  | inl good ↦
      let step : load id d ≡ Disk.decoded (lookup id d.files) =
        unfold load Disk.load in rw (good, load) in
      decoded-ok _ r (sym step ∙ h)
]

recover_one-Keeps :
    (now : ℕ) (id : String) (s : State) → IsNamed s.manifests → Keeps s (recover_one now id s).1
recover_one-Keeps now id s named = elim (Result-cases (load id s.manifests)) [
  | inl (e, bad) ↦ unfold recover_one in rw (bad, recover_one) (same-Keeps s s.manifests named refl)
  | inr (r, good) ↦
      unfold recover_one in
      rw (good, recover_one)
        (Round-Keeps id s (reconcile now r s).1 named
          (reconcile-Round now id r s (loaded id s.manifests r good)))
]

Keeps-trans : (s t u : State) → Keeps s t → Keeps t u → Keeps s u
Keeps-trans s t u a b = record {
  same_system = b.same_system ∙ a.same_system;
  named = b.named;
  same_manifest = λ k r at other. b.same_manifest k r (a.same_manifest k r at other) other;
}

-- Where every manifest is in the file of its ID, `Recover` moves no file, changes no manifest that
-- is not prepared, and leaves every manifest in the file of its ID.
pub recover-Keeps :
    (names : List (String × Option Error × ℕ)) (errors : List Error) (s : State)
    → IsNamed s.manifests
    → Keeps s (recover names errors s).1
unfolding recover
recover-Keeps [] errors s named = same-Keeps s s.manifests named refl
recover-Keeps ((id, some e, now) ∷ names) errors s named = same-Keeps s s.manifests named refl
recover-Keeps ((id, none, now) ∷ names) errors s named =
    let a = recover_one-Keeps now id s named in
    Keeps-trans s _ _ a (recover-Keeps names _ (recover_one now id s).1 a.named)
