-- ===== src/Registry/Reached.antt =====
-- internal/registry: every operation keeps the registry sound.
use safeops_agent.Prelude.{
  Bool, Bool-cases, Dict, Error, List, Option-cases, String, ap, erase, inl, inr, insert, lookup,
  lookup-erase, lookup-insert, ne→==, refl, some, true, ℕ, ◌∙◌, ◌≡◌, ◌≢◌, ◌⊎◌,
}
use safeops_agent.Registry.{DependencyState, ServerManifest, ServerState, starting}
use safeops_agent.Registry.Health.{dependency_failure, inspect_dependencies}
use safeops_agent.Registry.Manage.{ping_server}
use safeops_agent.Registry.Servers.{Connection, contact, discover, no_info}
use safeops_agent.Registry.Sound.{
  IsSound, IsTame, answered-IsTame, discovered-IsTame, discovery_failed-IsTame,
  health_failed-IsTame, starting-IsTame, touch-IsSound, update_state-others, update_state-states,
}
use safeops_agent.Registry.States.{Answer, Environment, Registry, health_failed, update_state}

-- What stays of the other entries where only one name is touched by a change of sessions.
erased_session :
    (id : String) (r : Registry) (k : String)
    → id ≢ k
    → lookup k (erase id r.sessions) ≡ lookup k r.sessions
erased_session id r k ne = rw (lookup-erase, ne→== id k ne)

inserted_session :
    (id : String) (n : ℕ) (m : Dict ℕ) (k : String) → id ≢ k → lookup k (insert id n m) ≡ lookup k m
inserted_session id n m k ne = rw (lookup-insert, ne→== id k ne)

-- A tame change of an enabled server, with its session left as it is.
pub update_state-IsSound :
    {off : String → Bool} (id : String) (f : ServerState → ServerState) (m : ServerManifest)
    (r : Registry)
    → IsTame f
    → lookup id r.manifests ≡ some m
    → m.enabled ≡ true
    → IsSound off r
    → IsSound off (update_state id f r)
update_state-IsSound id f m r t found on sound =
    let (a, b) = update_state-others id f r in
    touch-IsSound id f m r (update_state id f r) t found on a refl (λ k ne. ap (lookup k) b) sound

-- `Discover` in two parts: what it clears first, and the end.
cleared : String → Registry → Registry
cleared id r =
    let begun = update_state id (λ s. record s { status = starting; error = "" }) r in
    record begun { sessions = erase id begun.sessions }

cleared-IsSound :
    {off : String → Bool} (id : String) (m : ServerManifest) (r : Registry)
    → lookup id r.manifests ≡ some m
    → m.enabled ≡ true
    → IsSound off r
    → IsSound off (cleared id r)
unfolding cleared
cleared-IsSound id m r found on sound =
    let f : ServerState → ServerState = λ s. record s { status = starting; error = "" } in
    let (a, b) = update_state-others id f r in
    touch-IsSound id f m r (cleared id r) starting-IsTame found on a refl
      (λ k ne. erased_session id (update_state id f r) k ne ∙ ap (lookup k) b) sound

cleared-manifests : (id : String) (r : Registry) → (cleared id r).manifests ≡ r.manifests
unfolding cleared
cleared-manifests id r = (update_state-others id _ r).0

pub connected-IsSound :
    {off : String → Bool} (id : String) (f : ServerState → ServerState) (n : ℕ) (m : ServerManifest)
    (r : Registry)
    → IsTame f
    → lookup id r.manifests ≡ some m
    → m.enabled ≡ true
    → IsSound off r
    → IsSound off (update_state id f (record r { sessions = insert id n r.sessions }))
connected-IsSound id f n m r t found on sound =
    let with_session : Registry = record r { sessions = insert id n r.sessions } in
    let (a, b) = update_state-others id f with_session in
    touch-IsSound id f m r (update_state id f with_session) t found on a
      (update_state-states id f r with_session.sessions)
      (λ k ne. ap (lookup k) b ∙ inserted_session id n r.sessions k ne) sound

dropped-IsSound :
    {off : String → Bool} (id : String) (f : ServerState → ServerState) (m : ServerManifest)
    (r : Registry)
    → IsTame f
    → lookup id r.manifests ≡ some m
    → m.enabled ≡ true
    → IsSound off r
    → IsSound off (update_state id f (record r { sessions = erase id r.sessions }))
dropped-IsSound id f m r t found on sound =
    let without : Registry = record r { sessions = erase id r.sessions } in
    let (a, b) = update_state-others id f without in
    touch-IsSound id f m r (update_state id f without) t found on a
      (update_state-states id f r without.sessions)
      (λ k ne. ap (lookup k) b ∙ erased_session id r k ne) sound

sum_cases {ℓ κ} :
    {A : Type ℓ} {B : Type κ} (x : A ⊎ B) → ((a : A) × (x ≡ inl a)) ⊎ ((b : B) × (x ≡ inr b))
sum_cases (inl a) = inl (a, refl)
sum_cases (inr b) = inr (b, refl)

contact-cases :
    (env : Environment) (m : ServerManifest) (a : Answer)
    → ((x : Error × Error × (String × String × String)) × (contact env m a ≡ inl x))
      ⊎ ((c : Connection) × (contact env m a ≡ inr c))
contact-cases env m a = sum_cases (contact env m a)

pub discover-IsSound :
    {off : String → Bool} (env : Environment) (a : Answer) (id : String) (r : Registry)
    → IsSound off r
    → IsSound off (discover env a id r).1
discover-IsSound env a id r sound = elim (Option-cases (lookup id r.manifests)) [
  | inl gone ↦ unfold discover in rw (gone, discover) sound
  | inr (m, found) ↦ elim (Bool-cases m.enabled) [
    | inr off ↦ unfold discover in rw (found, discover) (rw off sound)
    | inl on ↦
        let cut = cleared-IsSound id m r found on sound in
        let there = ap (lookup id) (cleared-manifests id r) ∙ found in
        let checks = (inspect_dependencies env.machine m.dependencies a.now).0 in
        elim (Option-cases (dependency_failure checks)) [
          | inr (e, missing) ↦
              unfold discover cleared in
              rw (found, discover)
                (rw on (
                  rw missing (
                    update_state-IsSound id _ m _ (discovery_failed-IsTame env checks no_info e a)
                      there on cut)))
          | inl fine ↦ elim (contact-cases env m a) [
            | inl ((e, cause, info), failing) ↦
                unfold discover cleared in
                rw (found, discover)
                  (rw on (
                    rw fine (
                      rw failing (
                        update_state-IsSound id _ m _
                          (discovery_failed-IsTame env checks info cause a) there on cut))))
            | inr (c, reached) ↦
                unfold discover cleared in
                rw (found, discover)
                  (rw on (
                    rw fine (
                      rw reached (
                        connected-IsSound id _ c.session m _
                          (discovered-IsTame checks
                            (inspect_dependencies env.machine m.dependencies a.now).1 c.info c.tools
                            c.digest a)
                          there on cut))))
          ]
        ]
  ]
]

pub ping-IsSound :
    {off : String → Bool} (env : Environment) (a : Answer) (id : String)
    (checks : List DependencyState) (m : ServerManifest) (r : Registry)
    → lookup id r.manifests ≡ some m
    → m.enabled ≡ true
    → IsSound off r
    → IsSound off (ping_server env a id checks r).1
unfolding health_failed
ping-IsSound env a id checks m r found on sound = elim (Option-cases (lookup id r.sessions)) [
  | inl silent ↦
      unfold ping_server in
      rw (silent, ping_server)
        (update_state-IsSound id _ m r (health_failed-IsTame env checks _ a) found on sound)
  | inr (session, live) ↦ elim (Option-cases a.ping) [
    | inl answers ↦
        unfold ping_server in
        rw (live, ping_server)
          (rw answers (update_state-IsSound id _ m r (answered-IsTame checks a) found on sound))
    | inr (e, failing) ↦ elim (Bool-cases a.is_cancelled) [
      | inl stop ↦ unfold ping_server in rw (live, ping_server) (rw failing (rw stop sound))
      | inr go ↦
          unfold ping_server in
          rw (live, ping_server)
            (rw failing (
              rw go
                (dropped-IsSound id _ m r (health_failed-IsTame env checks e a) found on sound)))
    ]
  ]
]
