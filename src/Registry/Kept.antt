-- ===== src/Registry/Kept.antt =====
-- internal/registry: what every sequence of calls keeps, and what it means for a tool call.
use safeops_agent.Prelude.{
  lookup-erase, sym, erase, not, if◌then◌else◌, ◌⊎◌, Bool, ==→eq, ==→ne, Bool-cases, Option,
  Option-cases, String, ap, eq→==, false, inl, inr, insert, lookup, lookup-insert, ne→==, none,
  refl, some, subst, true, ℕ, ◌==◌, ◌∙◌, ◌≡◌, ◌≢◌,
}
use safeops_agent.Registry.{ServerManifest, ServerState}
use safeops_agent.Registry.Health.{append_bounded-length, dependency_failure, inspect_dependencies}
use safeops_agent.Registry.Manage.{mark_enabled, switched_off, switch_off, health, is_healthy}
use safeops_agent.Registry.Reached.{ping-IsSound, update_state-IsSound}
use safeops_agent.Registry.Sound.{
  IsBounded, IsServer, IsSound, unknown_server, health_failed-IsTame, known_server,
  lookup-update_state, update_state-others,
}
use safeops_agent.Registry.States.{Answer, Environment, Registry, update_state}

pub health-IsSound :
    {off : String → Bool} (env : Environment) (a : Answer) (id : String) (r : Registry)
    → IsSound off r
    → IsSound off (health env a id r).1
health-IsSound env a id r sound = elim (Option-cases (lookup id r.manifests)) [
  | inl gone ↦ unfold health in rw (gone, health) sound
  | inr (m, found) ↦ elim (Bool-cases m.enabled) [
    | inr off ↦ unfold health in rw (found, health) (rw off sound)
    | inl on ↦
        let checks = (inspect_dependencies env.machine m.dependencies a.now).0 in
        elim (Option-cases (dependency_failure checks)) [
          | inr (e, missing) ↦
              unfold health in
              rw (found, health)
                (rw on (
                  rw missing (
                    update_state-IsSound id _ m r (health_failed-IsTame env checks e a) found on
                      sound)))
          | inl fine ↦
              unfold health in
              rw (found, health) (rw on (rw fine (ping-IsSound env a id checks m r found on sound)))
        ]
  ]
]

no_manifest : {m : ServerManifest} → ◌≡◌ {A = Option ServerManifest} (some m) none → ⊥
no_manifest h = cc

on_or_off {ℓ} : {A : Type ℓ} (on : Bool) → (on ≡ true) ⊎ ((not on ≡ true) ⊎ A)
on_or_off true = inl refl
on_or_off false = inr (inl refl)

abbrev pub change : (ServerState → ServerState) → Option ServerState → Option ServerState
change f none = none
change f (some s) = some (f s)

-- What the second step of `SetEnabled` makes of an entry, for any reason to switch it off.
pub entry_off :
    (off off' : Bool) (k k' : String) (m : Option ServerManifest) (s : Option ServerState)
    (session : Option ℕ) (g : ServerState → ServerState)
    → k ≡ k'
    → ((x : ServerState) → (g x).manifest ≡ x.manifest)
    → ((x : ServerState) → is_healthy (g x).status ≡ false)
    → ((x : ServerState) → IsBounded x → IsBounded (g x))
    → IsServer off k m s session
    → IsServer off' k' m (change g s) none
entry_off off off' k k' _ _ _ g same manifest sick few unknown_server = unknown_server
entry_off off off' k k' _ _ _ g same manifest sick few
      (known_server m s session named alike small _) =
    known_server m (g s) none (named ∙ same) (manifest s ∙ alike) (few s small)
      (inr (inr (sick s, refl)))

-- What the first step of `SetEnabled` makes of an entry.
entry_marked :
    (off : Bool) (k k' : String) (on : Bool) (m : ServerManifest) (s : Option ServerState)
    (session : Option ℕ)
    → k ≡ k'
    → IsServer off k (some m) s session
    → IsServer
        (not on)
        k'
        (some (record m { enabled = on }))
        (change (λ x. record x { manifest = record m { enabled = on } }) s)
        session
entry_marked off k k' on _ _ _ same (known_server m s session named _ bounded _) =
    known_server (record m { enabled = on }) (record s { manifest = record m { enabled = on } })
      session (named ∙ same) refl bounded (on_or_off on)

-- The entry of a changed name, and of another one.
pub state_here :
    (id k : String) (f : ServerState → ServerState) (r : Registry)
    → id ≡ k
    → lookup k (update_state id f r).states ≡ change f (lookup k r.states)
state_here id k f r same =
    lookup-update_state id k f r
    ∙ rw (eq→== id k same) (ap (λ j. change f (lookup j r.states)) same)

pub state_elsewhere :
    (id k : String) (f : ServerState → ServerState) (r : Registry)
    → id ≢ k
    → lookup k (update_state id f r).states ≡ lookup k r.states
state_elsewhere id k f r ne = lookup-update_state id k f r ∙ rw (ne→== id k ne) refl

-- Whether a name is being switched off, after this is changed for one name.
abbrev pub set_off : String → Bool → (String → Bool) → String → Bool
set_off id b off k = if id == k then b else off k

-- The first step of `SetEnabled`.
mark_known :
    (id : String) (on : Bool) (m : ServerManifest) (r : Registry) {off : String → Bool}
    → lookup id r.manifests ≡ some m
    → IsSound off r
    → IsSound (set_off id (not on) off) (mark_enabled id on r).1
mark_known id on m r {off} found sound k =
    let m' : ServerManifest = record m { enabled = on } in
    let f : ServerState → ServerState = λ s. record s { manifest = m' } in
    let r' : Registry = record r { manifests = insert id m' r.manifests } in
    let (a, b) = update_state-others id f r' in
    let step : (mark_enabled id on r).1 ≡ update_state id f r' =
      unfold mark_enabled in rw (found, mark_enabled) refl in
    subst
      (λ v.
        IsServer (set_off id (not on) off k) k (lookup k v.manifests) (lookup k v.states)
          (lookup k v.sessions))
      (sym step)
      (elim (Bool-cases (id == k)) [
        | inl hit ↦
            let same = ==→eq id k hit in
            let held : lookup k r.manifests ≡ some m =
              subst (λ j. lookup j r.manifests ≡ some m) same found in
            let now : lookup k (update_state id f r').manifests ≡ some m' =
              ap (lookup k) a ∙ rw (lookup-insert, hit) in
            rw (now, state_here id k f r' same, ap (lookup k) b, hit)
              (entry_marked (off k) k k on m (lookup k r.states) (lookup k r.sessions) refl
                (rw held at (sound k)))
        | inr miss ↦
            let ne = ==→ne id k miss in
            let now : lookup k (update_state id f r').manifests ≡ lookup k r.manifests =
              ap (lookup k) a ∙ rw (lookup-insert, miss) in
            rw (now, state_elsewhere id k f r' ne, ap (lookup k) b, miss) (sound k)
      ])

no_entry :
    (off off' : Bool) (k : String) (m : Option ServerManifest) (s : Option ServerState)
    (session : Option ℕ)
    → m ≡ none
    → IsServer off k m s session
    → IsServer off' k m s session
no_entry off off' k _ _ _ h unknown_server = unknown_server
no_entry off off' k _ _ _ h (known_server m s session named alike small _) = absurd (no_manifest h)

pub mark_enabled-IsSound :
    (id : String) (on : Bool) (r : Registry) {off : String → Bool}
    → IsSound off r
    → IsSound (set_off id (not on) off) (mark_enabled id on r).1
mark_enabled-IsSound id on r {off} sound = elim (Option-cases (lookup id r.manifests)) [
  | inr (m, found) ↦ mark_known id on m r found sound
  | inl gone ↦
      unfold mark_enabled in
      rw (gone, mark_enabled)
        (λ k. elim (Bool-cases (id == k)) [
          | inr miss ↦ rw miss (sound k)
          | inl hit ↦
              no_entry (off k) _ k _ _ _
                (ap (λ j. lookup j r.manifests) (sym (==→eq id k hit)) ∙ gone) (sound k)
        ])
]

-- The second step, where the server is switched off.
pub switch_off-IsSound :
    (a : Answer) (id : String) (r : Registry) {off : String → Bool}
    → IsSound off r
    → IsSound (set_off id false off) (switch_off a id r).1
unfolding switch_off
switch_off-IsSound a id r {off} sound k =
    let g = switched_off a in
    let r' : Registry = record r { sessions = erase id r.sessions } in
    let (manifests, sessions) = update_state-others id g r' in
    let silent : lookup k (update_state id g r').sessions
        ≡ (if id == k then none else lookup k r.sessions) =
      ap (lookup k) sessions ∙ lookup-erase id k r.sessions in
    elim (Bool-cases (id == k)) [
      | inl hit ↦
          let same = ==→eq id k hit in
          let gone : lookup k (update_state id g r').sessions ≡ none = rw hit at silent in
          rw (ap (lookup k) manifests, state_here id k g r' same, gone, hit)
            (entry_off (off k) false k k (lookup k r.manifests) (lookup k r.states)
              (lookup k r.sessions) g refl (λ x. unfold switched_off in refl)
              (λ x. unfold switched_off is_healthy in refl)
              (λ x few. unfold switched_off in (append_bounded-length x.health_history _, few.1))
              (sound k))
      | inr miss ↦
          let ne = ==→ne id k miss in
          let kept : lookup k (update_state id g r').sessions ≡ lookup k r.sessions =
            rw miss at silent in
          rw (ap (lookup k) manifests, state_elsewhere id k g r' ne, kept, miss) (sound k)
    ]
