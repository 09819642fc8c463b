-- ===== src/Registry/Sound.antt =====
-- internal/registry: what every sequence of calls keeps.
use safeops_agent.Prelude.{
  ==→eq, ==→ne, Bool, Bool-cases, Dict, Error, List, Option, Option-cases, String, ap, arith, false,
  if◌then◌else◌, inl, inr, length, lookup, lookup-insert, none, refl, some, subst, true, ℕ, ◌==◌,
  ◌∙◌, ◌≡◌, ◌≢◌, ◌≤◌, ◌⊎◌,
}
use safeops_agent.Registry.{DependencyState, ServerManifest, ServerState, ToolRecord, starting}
use safeops_agent.Registry.Health.{append_bounded-length}
use safeops_agent.Registry.Manage.{answered, is_healthy}
use safeops_agent.Registry.States.{
  Answer, Environment, Registry, discovered, discovery_failed, health_failed, update_state,
}

-- Neither history is longer than its bound.
abbrev pub IsBounded : ServerState → Type 0
IsBounded s = (length s.health_history ≤ 32) × (length s.discovery_history ≤ 32)

-- What is kept of one name: nothing; or a manifest of this name and a state that has the same
-- manifest and bounded histories, where a server that is healthy or has a session is enabled or is
-- being switched off (`off`).
pub data IsServer (off : Bool) (k : String)
    : Option ServerManifest → Option ServerState → Option ℕ → Type 0 where
  unknown_server : IsServer off k none none none
  known_server :
      (m : ServerManifest) (s : ServerState) (session : Option ℕ)
      → m.id ≡ k
      → s.manifest ≡ m
      → IsBounded s
      → (m.enabled ≡ true) ⊎ ((off ≡ true) ⊎ ((is_healthy s.status ≡ false) × (session ≡ none)))
      → IsServer off k (some m) (some s) session

-- The names for which `off` says so are being switched off.
abbrev pub IsSound : (String → Bool) → Registry → Type 0
IsSound off r =
    (k : String)
    → IsServer (off k) k (lookup k r.manifests) (lookup k r.states) (lookup k r.sessions)

-- A change of the state of an enabled server that keeps its manifest and its bounds.
pub record IsTame (f : ServerState → ServerState) : Type 0 where
  pub same_manifest : (s : ServerState) → (f s).manifest ≡ s.manifest
  pub bounded : (s : ServerState) → IsBounded s → IsBounded (f s)

tame-IsServer :
    (off off' : Bool) (k k' : String) (f : ServerState → ServerState) (m : ServerManifest)
    (s : Option ServerState) (session after : Option ℕ)
    → IsTame f
    → m.enabled ≡ true
    → k ≡ k'
    → IsServer off k (some m) s session
    → IsServer off' k' (some m) (elim s [ none ↦ none | some x ↦ some (f x) ]) after
tame-IsServer off off' k k' f _ _ _ after t on same_name
      (known_server m s session named same few _) =
    known_server m (f s) after (named ∙ same_name) (t.same_manifest s ∙ same) (t.bounded s few)
      (inl on)

-- The three entries of a name after its state is changed.
pub lookup-update_state :
    (id k : String) (f : ServerState → ServerState) (r : Registry)
    → lookup k (update_state id f r).states ≡ (
        if id == k
        then elim (lookup id r.states) [ none ↦ none | some s ↦ some (f s) ]
        else lookup k r.states)
lookup-update_state id k f r = elim (Option-cases (lookup id r.states)) [
  | inl gone ↦ unfold update_state in rw (gone, update_state) (ground (arith, ==→eq id k, gone))
  | inr (s, found) ↦
      unfold update_state in rw (found, update_state) (lookup-insert id k (f s) r.states)
]

pub update_state-others :
    (id : String) (f : ServerState → ServerState) (r : Registry)
    → ((update_state id f r).manifests ≡ r.manifests)
      × ((update_state id f r).sessions ≡ r.sessions)
update_state-others id f r = elim (Option-cases (lookup id r.states)) [
  | inl gone ↦ unfold update_state in rw (gone, update_state) (refl, refl)
  | inr (s, found) ↦ unfold update_state in rw (found, update_state) (refl, refl)
]

-- The sessions are of no account for the states.
pub update_state-states :
    (id : String) (f : ServerState → ServerState) (r : Registry) (sessions : Dict ℕ)
    → (update_state id f (record r { sessions = sessions })).states ≡ (update_state id f r).states
update_state-states id f r sessions = elim (Option-cases (lookup id r.states)) [
  | inl gone ↦ unfold update_state in rw (gone, update_state) refl
  | inr (s, found) ↦ unfold update_state in rw (found, update_state) refl
]

-- An enabled server may change its state by a tame change, and its session in any way.
pub touch-IsSound :
    {off : String → Bool} (id : String) (f : ServerState → ServerState) (m : ServerManifest)
    (r after : Registry)
    → IsTame f
    → lookup id r.manifests ≡ some m
    → m.enabled ≡ true
    → after.manifests ≡ r.manifests
    → after.states ≡ (update_state id f r).states
    → ((k : String) → id ≢ k → lookup k after.sessions ≡ lookup k r.sessions)
    → IsSound off r
    → IsSound off after
touch-IsSound {off} id f m r after t found on manifests states sessions sound k =
    let at_state = ap (lookup k) states ∙ lookup-update_state id k f r in
    elim (Bool-cases (id == k)) [
      | inl hit ↦
          let same : id ≡ k = ==→eq id k hit in
          let a : lookup k after.manifests ≡ some m =
            ap (lookup k) manifests ∙ subst (λ j. lookup j r.manifests ≡ some m) same found in
          let b : lookup k after.states
              ≡ (elim (lookup id r.states) [ none ↦ none | some s ↦ some (f s) ]) =
            rw hit at at_state in
          let old : IsServer (off id) id (some m) (lookup id r.states) (lookup id r.sessions) =
            rw found at (sound id) in
          rw (a, b)
            (tame-IsServer (off id) (off k) id k f m _ _ (lookup k after.sessions) t on same old)
      | inr miss ↦
          let b : lookup k after.states ≡ lookup k r.states = rw miss at at_state in
          rw (ap (lookup k) manifests, b, sessions k (==→ne id k miss)) (sound k)
    ]

pub starting-IsTame : IsTame (λ s. record s { status = starting; error = "" })
starting-IsTame = record { same_manifest = λ s. refl; bounded = λ s few. few }

pub health_failed-IsTame :
    (env : Environment) (checks : List DependencyState) (e : Error) (a : Answer)
    → IsTame (health_failed env checks e a)
unfolding health_failed
health_failed-IsTame env checks e a = record {
  same_manifest = λ s. refl;
  bounded = λ s few. (append_bounded-length s.health_history _, few.1);
}

pub discovery_failed-IsTame :
    (env : Environment) (checks : List DependencyState) (info : String × String × String)
    (e : Error) (a : Answer)
    → IsTame (discovery_failed env checks info e a)
unfolding discovery_failed health_failed
discovery_failed-IsTame env checks info e a = record {
  same_manifest = λ s. refl;
  bounded = λ s few.
      (append_bounded-length s.health_history _, append_bounded-length s.discovery_history _);
}

pub discovered-IsTame :
    (checks : List DependencyState) (fine : Bool) (info : String × String × String)
    (tools : List ToolRecord) (digest : String) (a : Answer)
    → IsTame (discovered checks fine info tools digest a)
unfolding discovered
discovered-IsTame checks fine info tools digest a = record {
  same_manifest = λ s. refl;
  bounded = λ s few.
      (append_bounded-length s.health_history _, append_bounded-length s.discovery_history _);
}

pub answered-IsTame : (checks : List DependencyState) (a : Answer) → IsTame (answered checks a)
unfolding answered
answered-IsTame checks a = record {
  same_manifest = λ s. refl;
  bounded = λ s few. (append_bounded-length s.health_history _, few.1);
}
