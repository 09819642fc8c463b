-- ===== src/Registry/Sequences.antt =====
-- internal/registry: sequences of calls, and what they mean for the call of a tool.
use safeops_agent.Prelude.{
  not, ==→eq, Bool, Bool-cases, Error, List, Option, Option-cases, String, [], ap, arith, false,
  inl, inr, insert, lookup, lookup-insert, none, refl, some, subst, true, ℕ, ◌==◌, ◌∙◌, ◌∷◌, ◌≡◌,
}
use safeops_agent.Registry.{ServerManifest, ServerState}
use safeops_agent.Registry.Kept.{switch_off-IsSound, mark_enabled-IsSound, set_off, health-IsSound}
use safeops_agent.Registry.Manage.{
  switch_off, mark_enabled, check_one, close, health, is_healthy, set_enabled,
}
use safeops_agent.Registry.Reached.{discover-IsSound}
use safeops_agent.Registry.Servers.{discover}
use safeops_agent.Registry.Sound.{IsServer, IsSound, known_server, unknown_server}
use safeops_agent.Registry.States.{
  Answer, Environment, Registry, add_server, add_servers, blank_state, new,
}

without_session :
    (off : Bool) (k : String) (m : Option ServerManifest) (s : Option ServerState)
    (session : Option ℕ)
    → IsServer off k m s session
    → IsServer off k m s none
without_session off k _ _ _ unknown_server = unknown_server
without_session off k _ _ _ (known_server m s session named same few (inl on)) =
    known_server m s none named same few (inl on)
without_session off k _ _ _ (known_server m s session named same few (inr (inl leaving))) =
    known_server m s none named same few (inr (inl leaving))
without_session off k _ _ _ (known_server m s session named same few (inr (inr (sick, _)))) =
    known_server m s none named same few (inr (inr (sick, refl)))

close-IsSound :
    (closing : String → Option Error) (r : Registry) {off : String → Bool}
    → IsSound off r
    → IsSound off (close closing r).1
unfolding close lookup
close-IsSound closing r sound k = without_session _ k _ _ _ (sound k)

-- The steps that change a registry, each with what its surroundings answer. Those under the
-- lifecycle's mutex are one step each: the other writers of a registry, the first steps of
-- `SetEnabled`, touch only a manifest, which they do not write and read once at their start.
-- A round of `CheckAll` is `discover_call` or `health_call`, and `check_call` where nothing comes
-- between its look at the sessions and this. `SetEnabled` is `mark_call` and then `switch_off_call` or `discover_call`, with any steps between.
pub data Call : Type 0 where
  discover_call health_call check_call : Environment → Answer → String → Call
  mark_call : String → Bool → Call
  switch_off_call : Answer → String → Call
  close_call : (String → Option Error) → Call

unfoldable pub apply : Call → Registry → Registry
apply (discover_call env a id) r = (discover env a id r).1
apply (health_call env a id) r = (health env a id r).1
apply (check_call env a id) r = (check_one env a id r).1
apply (mark_call id enabled) r = (mark_enabled id enabled r).1
apply (switch_off_call a id) r = (switch_off a id r).1
apply (close_call closing) r = (close closing r).1

-- The names of which a `SetEnabled` has written `Enabled = false`, with no second step and no
-- `Enabled = true` since.
unfoldable pub switching : Call → (String → Bool) → String → Bool
switching (mark_call id enabled) off = set_off id (not enabled) off
switching (switch_off_call a id) off = set_off id false off
switching (discover_call env a id) off = off
switching (health_call env a id) off = off
switching (check_call env a id) off = off
switching (close_call closing) off = off

-- The registries that the steps lead to, with the names that are being switched off.
pub data Reach (start : Registry) : (String → Bool) → Registry → Type 0 where
  begin : Reach start (λ k. false) start
  next :
      {off : String → Bool} {r : Registry}
      → Reach start off r
      → (c : Call) → Reach start (switching c off) (apply c r)

-- `SetEnabled` with no other step between is among them.
set_enabled-Reach :
    (env : Environment) (a : Answer) (id : String) (on : Bool) (m : ServerManifest)
    {start r : Registry} {off : String → Bool}
    → lookup id r.manifests ≡ some m
    → Reach start off r
    → (off' : String → Bool) × Reach start off' (set_enabled env a id on r).1
set_enabled-Reach env a id true m {r = r} found before =
    let done = next (next before (mark_call id true)) (discover_call env a id) in
    let step : apply (discover_call env a id) (apply (mark_call id true) r)
        ≡ (set_enabled env a id true r).1 =
      unfold set_enabled mark_enabled apply in rw (found, set_enabled) refl in
    (_, subst (Reach _ _) step done)
set_enabled-Reach env a id false m {r = r} found before =
    let done = next (next before (mark_call id false)) (switch_off_call a id) in
    let step : apply (switch_off_call a id) (apply (mark_call id false) r)
        ≡ (set_enabled env a id false r).1 =
      unfold set_enabled mark_enabled apply in rw (found, set_enabled) refl in
    (_, subst (Reach _ _) step done)

check_one-IsSound :
    (env : Environment) (a : Answer) (id : String) (r : Registry) {off : String → Bool}
    → IsSound off r
    → IsSound off (check_one env a id r).1
check_one-IsSound env a id r sound = elim (Option-cases (lookup id r.sessions)) [
  | inl gone ↦ unfold check_one in rw (gone, check_one) (discover-IsSound env a id r sound)
  | inr (n, live) ↦ unfold check_one in rw (live, check_one) (health-IsSound env a id r sound)
]

apply-IsSound :
    (c : Call) (r : Registry) {off : String → Bool}
    → IsSound off r
    → IsSound (switching c off) (apply c r)
unfolding apply switching
apply-IsSound (discover_call env a id) r sound = discover-IsSound env a id r sound
apply-IsSound (health_call env a id) r sound = health-IsSound env a id r sound
apply-IsSound (check_call env a id) r sound = check_one-IsSound env a id r sound
apply-IsSound (mark_call id enabled) r sound = mark_enabled-IsSound id enabled r sound
apply-IsSound (switch_off_call a id) r sound = switch_off-IsSound a id r sound
apply-IsSound (close_call closing) r sound = close-IsSound closing r sound

add_server-IsSound :
    (m : ServerManifest) (r : Registry)
    → lookup m.id r.sessions ≡ none
    → IsSound (λ k. false) r
    → IsSound (λ k. false) (add_server m r)
unfolding add_server
add_server-IsSound m r quiet sound k =
    let manifests = lookup-insert m.id k m r.manifests in
    let states = lookup-insert m.id k (blank_state m) r.states in
    elim (Bool-cases (m.id == k)) [
      | inl hit ↦
          let same = ==→eq m.id k hit in
          let silent : lookup k r.sessions ≡ none =
            subst (λ j. lookup j r.sessions ≡ none) same quiet in
          let a : lookup k (insert m.id m r.manifests) ≡ some m = rw hit at manifests in
          let b : lookup k (insert m.id (blank_state m) r.states) ≡ some (blank_state m) =
            rw hit at states in
          rw (a, b, silent)
            (known_server m (blank_state m) none same (unfold blank_state in refl)
              (unfold blank_state in (omega arith, omega arith))
              (inr (inr (unfold blank_state is_healthy in refl, refl))))
      | inr miss ↦
          let a : lookup k (insert m.id m r.manifests) ≡ lookup k r.manifests =
            rw miss at manifests in
          let b : lookup k (insert m.id (blank_state m) r.states) ≡ lookup k r.states =
            rw miss at states in
          rw (a, b) (sound k)
    ]

add_servers-IsSound :
    (ms : List ServerManifest) (r : Registry)
    → r.sessions ≡ []
    → IsSound (λ k. false) r
    → IsSound (λ k. false) (add_servers ms r)
unfolding add_servers
add_servers-IsSound [] r quiet sound = sound
add_servers-IsSound (m ∷ ms) r quiet sound =
    add_servers-IsSound ms (add_server m r) (unfold add_server in quiet)
      (add_server-IsSound m r (ap (lookup m.id) quiet ∙ unfold lookup in refl) sound)

new-IsSound : (servers : List ServerManifest) → IsSound (λ k. false) (new servers)
unfolding new
new-IsSound servers = add_servers-IsSound servers _ refl (λ k. unfold lookup in unknown_server)

-- Over any steps on a new registry, with those of several `SetEnabled` in any order: a name has a
-- state just where it has a manifest, which is of this name, the state has the same manifest, no
-- history is longer than 32, and a server that is healthy or has a session is enabled or is being
-- switched off: a `SetEnabled` has written so and not come to its second step.
pub Reach-IsSound :
    (servers : List ServerManifest) {off : String → Bool} {r : Registry}
    → Reach (new servers) off r
    → IsSound off r
Reach-IsSound servers begin = new-IsSound servers
Reach-IsSound servers (next {r = r} before c) = apply-IsSound c r (Reach-IsSound servers before)
