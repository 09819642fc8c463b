-- ===== src/Executor/Targeted.antt =====
-- internal/executor/target.go: what a revalidated target is.
use safeops_agent.Contracts.Snapshot.{TargetSnapshot, ℤ}
use safeops_agent.Executor.Targets.{
  Surroundings, digest_text, join_name, require_missing, revalidate, snapshot_again, snapshot_file,
  snapshot_new_file, snapshot_process, snapshot_service, stat_of, within_roots,
}
use safeops_agent.Prelude.{
  ==→eq, >>=-eq-ok, Bool, Bool-cases, Error, List, Option, Result, Result-cases, String, ap, arith,
  clean, err, false, inl, inr, none, not, ok, refl, refuse_if-eq-ok, some, subst, sym, true, ◌==◌,
  ◌∙◌, ◌≡◌, ◌⊎◌,
}
use Prim.Native.String.{◌++◌}

-- The snapshot of the target as it is now: it is of the same type, has the digest of the expected
-- one, and the path of a file lies within a root.
pub record IsCurrent (digest : TargetSnapshot → Result String) (w : Surroundings)
    (roots : List String) (t : TargetSnapshot) : Type 0 where
  pub current : TargetSnapshot
  pub taken : snapshot_again w roots t ≡ ok current
  pub same_kind : current.kind ≡ t.kind
  pub same_id : current.id ≡ t.id
  pub same_digest : digest_text (digest t) ≡ digest_text (digest current)
  pub inside :
      (t.kind ≡ "process")
      ⊎ ((t.kind ≡ "service") ⊎ (within_roots current.canonical_path roots ≡ true))

-- What is known of a snapshot of this type that is taken.
abbrev IsTaken : List String → String → String → TargetSnapshot → Type 0
IsTaken roots kind id current =
    (current.kind ≡ kind)
    × (current.id ≡ id)
    × ((kind ≡ "process")
        ⊎ ((kind ≡ "service") ⊎ (within_roots current.canonical_path roots ≡ true)))

ok_injective {ℓ} : {A : Type ℓ} {a b : A} → ◌≡◌ {A = Result A} (ok a) (ok b) → a ≡ b
ok_injective h = cc

no_result {ℓ} : {A : Type ℓ} {a : A} {e : Error} → ◌≡◌ {A = Result A} (err e) (ok a) → ⊥
no_result h = cc

true_test : (b : Bool) → not b ≡ false → b ≡ true
true_test b h = ground arith

snapshot_file-IsTaken :
    (w : Surroundings) (roots : List String) (id path : String) (c : TargetSnapshot)
    → snapshot_file w roots id path ≡ ok c
    → IsTaken roots "file" id c
unfolding snapshot_file
snapshot_file-IsTaken w roots id path c h =
    let (canonical, _, h1) = >>=-eq-ok (w.eval_symlinks (clean path)) _ h in
    let (inside, h2) = refuse_if-eq-ok _ _ _ h1 in
    let (s, _, h3) = >>=-eq-ok (stat_of (w.look canonical)) _ h2 in
    let made = ok_injective h3 in
    (
      sym (ap (λ (x : TargetSnapshot). x.kind) made),
      sym (ap (λ (x : TargetSnapshot). x.id) made),
      inr (
          inr (
            subst (λ p. within_roots p roots ≡ true)
              (ap (λ (x : TargetSnapshot). x.canonical_path) made) (true_test _ inside))),
    )

snapshot_new_file-IsTaken :
    (w : Surroundings) (roots : List String) (id path : String) (c : TargetSnapshot)
    → snapshot_new_file w roots id path ≡ ok c
    → IsTaken roots "file" id c
unfolding snapshot_new_file
snapshot_new_file-IsTaken w roots id path c h =
    let (parent, _, h1) = >>=-eq-ok (w.eval_symlinks (w.dir (clean path))) _ h in
    let (_, h2) = refuse_if-eq-ok _ _ _ h1 in
    let (inside, h3) = refuse_if-eq-ok _ _ _ h2 in
    let (_, _, h4) =
      >>=-eq-ok (require_missing (w.look (join_name parent (w.base (clean path))))) _ h3 in
    let (s, _, h5) = >>=-eq-ok (stat_of (w.look parent)) _ h4 in
    let (_, h6) = refuse_if-eq-ok _ _ _ h5 in
    let made = ok_injective h6 in
    (
      sym (ap (λ (x : TargetSnapshot). x.kind) made),
      sym (ap (λ (x : TargetSnapshot). x.id) made),
      inr (
          inr (
            subst (λ p. within_roots p roots ≡ true)
              (ap (λ (x : TargetSnapshot). x.canonical_path) made) (true_test _ inside))),
    )

snapshot_process-IsTaken :
    (w : Surroundings) (roots : List String) (id : String) (pid : ℤ) (c : TargetSnapshot)
    → snapshot_process w id pid ≡ ok c
    → IsTaken roots "process" id c
unfolding snapshot_process
snapshot_process-IsTaken w roots id pid c h =
    let (i, _, h1) = >>=-eq-ok (w.process_identity pid) _ h in
    let made = ok_injective h1 in
    (
      sym (ap (λ (x : TargetSnapshot). x.kind) made),
      sym (ap (λ (x : TargetSnapshot). x.id) made),
      inl refl,
    )

snapshot_service-IsTaken :
    (w : Surroundings) (roots : List String) (id unit : String) (c : TargetSnapshot)
    → snapshot_service w id unit ≡ ok c
    → IsTaken roots "service" id c
unfolding snapshot_service
snapshot_service-IsTaken w roots id unit c h =
    let (i, _, h1) = >>=-eq-ok (w.service_status unit) _ h in
    let made = ok_injective h1 in
    (
      sym (ap (λ (x : TargetSnapshot). x.kind) made),
      sym (ap (λ (x : TargetSnapshot). x.id) made),
      inr (inl refl),
    )

snapshot_again-IsTaken :
    (w : Surroundings) (roots : List String) (t c : TargetSnapshot)
    → snapshot_again w roots t ≡ ok c
    → IsTaken roots t.kind t.id c
unfolding snapshot_again
snapshot_again-IsTaken w roots t c h = elim (Bool-cases (t.kind == "process")) [
  | inl is_process ↦
      subst (λ k. IsTaken roots k t.id c) (sym (==→eq _ _ is_process))
        (snapshot_process-IsTaken w roots t.id t.pid c (rw is_process at h))
  | inr a ↦ elim (Bool-cases (t.kind == "service")) [
    | inl is_service ↦
        subst (λ k. IsTaken roots k t.id c) (sym (==→eq _ _ is_service))
          (snapshot_service-IsTaken w roots t.id t.service_name c (rw (a, is_service) at h))
    | inr b ↦ elim (Bool-cases (t.kind == "file")) [
      | inr other ↦ absurd (no_result (rw (a, b, other) at h))
      | inl is_file ↦
          subst (λ k. IsTaken roots k t.id c) (sym (==→eq _ _ is_file))
            (elim (Bool-cases t.expect_absent) [
              | inl gone ↦
                  snapshot_new_file-IsTaken w roots t.id t.canonical_path c
                    (rw gone at (rw (a, b, is_file) at h))
              | inr there ↦
                  snapshot_file-IsTaken w roots t.id t.canonical_path c
                    (rw there at (rw (a, b, is_file) at h))
            ])
    ]
  ]
]

no_error : {e : Error} → ◌≡◌ {A = Option Error} (some e) none → ⊥
no_error h = cc

digest_kept :
    (digest : TargetSnapshot → Result String) (w : Surroundings) (roots : List String)
    (t c : TargetSnapshot)
    → snapshot_again w roots t ≡ ok c
    → revalidate digest w roots t ≡ none
    → digest_text (digest t) ≡ digest_text (digest c)
digest_kept digest w roots t c taken h =
    elim (Bool-cases (digest_text (digest t) == digest_text (digest c))) [
      | inl alike ↦ ==→eq _ _ alike
      | inr differ ↦
          let stop : revalidate digest w roots t
              ≡ some (
                  "snapshot digest changed: expected "
                  ++ digest_text (digest t)
                  ++ " got "
                  ++ digest_text (digest c)) =
            unfold revalidate in rw (taken, revalidate) (rw differ refl) in
          absurd (no_error (sym stop ∙ h))
    ]

-- Where `Revalidate` reports no error, a snapshot of the target taken now succeeds, is of the same
-- type and ID and has the same digest, and the path of a file lies within an allowed root.
pub revalidate-IsCurrent :
    (digest : TargetSnapshot → Result String) (w : Surroundings) (roots : List String)
    (t : TargetSnapshot)
    → revalidate digest w roots t ≡ none
    → IsCurrent digest w roots t
revalidate-IsCurrent digest w roots t h = elim (Result-cases (snapshot_again w roots t)) [
  | inl (e, failing) ↦
      let stop : revalidate digest w roots t ≡ some e =
        unfold revalidate in rw (failing, revalidate) refl in
      absurd (no_error (sym stop ∙ h))
  | inr (c, taken) ↦
      let (kind, id, inside) = snapshot_again-IsTaken w roots t c taken in
      record {
        current = c;
        taken = taken;
        same_kind = kind;
        same_id = id;
        same_digest = digest_kept digest w roots t c taken h;
        inside = inside;
      }
]
