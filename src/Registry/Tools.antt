-- ===== src/Registry/Tools.antt =====
-- internal/registry/registry.go: which tool calls go through, and which tools are offered.
use safeops_agent.Prelude.{
  Bool, Bool-cases, Dict, Error, List, Option, Option-cases, Result, String, [], any, ap, arith,
  err, inl, inr, lookup, none, not, ok, refl, some, sort_by-mem, subst, sym, true, ℕ, ◌==◌, ◌||◌,
  ◌∙◌, ◌∷◌, ◌≡◌, ◌⊎◌,
}
use safeops_agent.Registry.{ServerManifest, ServerState, ToolRecord, quoted}
use safeops_agent.Registry.Manage.{
  ToolCapability, available_tools, call_tool, capabilities, capability_before, is_healthy, offered,
}
use safeops_agent.Registry.Sequences.{Reach, Reach-IsSound}
use safeops_agent.Registry.Sound.{IsServer, known_server, unknown_server}
use safeops_agent.Registry.States.{Registry, new}
use Prim.Native.String.{◌++◌}
use mathlib.Core.List.{Memᴰ, ◌++◌ as append}

-- A server with a manifest, healthy, with this session, that has listed the tool. It is enabled, or a
-- `SetEnabled` is about to take the session away (`off`).
pub record MayCall (off : String → Bool) (server name : String) (r : Registry) (session : ℕ)
    : Type 0 where
  pub manifest : ServerManifest
  pub state : ServerState
  pub known : lookup server r.manifests ≡ some manifest
  pub enabled : (manifest.enabled ≡ true) ⊎ (off server ≡ true)
  pub kept : lookup server r.states ≡ some state
  pub well : is_healthy state.status ≡ true
  pub listed : any (λ (t : ToolRecord). t.name == name) state.tools ≡ true
  pub live : lookup server r.sessions ≡ some session

no_result {ℓ} : {A : Type ℓ} {a : A} {e : Error} → ◌≡◌ {A = Result A} (err e) (ok a) → ⊥
no_result h = cc

ok_injective {ℓ} : {A : Type ℓ} {a b : A} → ◌≡◌ {A = Result A} (ok a) (ok b) → a ≡ b
ok_injective h = cc

no_number : {n : ℕ} → ◌≡◌ {A = Option ℕ} none (some n) → ⊥
no_number h = cc

live_server :
    (off : Bool) (k : String) (m : Option ServerManifest) (s : Option ServerState)
    (session : Option ℕ) (n : ℕ)
    → IsServer off k m s session
    → session ≡ some n
    → (x : ServerManifest) × (m ≡ some x) × ((x.enabled ≡ true) ⊎ (off ≡ true))
live_server off k _ _ _ n unknown_server h = absurd (no_number h)
live_server off k _ _ _ n (known_server m s session _ _ _ (inl on)) h = (m, refl, inl on)
live_server off k _ _ _ n (known_server m s session _ _ _ (inr (inl leaving))) h =
    (m, refl, inr leaving)
live_server off k _ _ _ n (known_server m s session _ _ _ (inr (inr (_, gone)))) h =
    absurd (no_number (sym gone ∙ h))

call_tool-MayCall :
    (off : String → Bool) (server name : String) (r : Registry) (session : ℕ)
    → IsServer
        (off server)
        server
        (lookup server r.manifests)
        (lookup server r.states)
        (lookup server r.sessions)
    → call_tool server name r ≡ ok session
    → MayCall off server name r session
call_tool-MayCall off server name r session sound h =
    elim (Option-cases (lookup server r.sessions)) [
      | inl silent ↦
          let stop : call_tool server name r ≡ err ("MCP server " ++ server ++ " is not healthy") =
            unfold call_tool in rw (silent, call_tool) refl in
          absurd (no_result (sym stop ∙ h))
      | inr (n, live) ↦ elim (Option-cases (lookup server r.states)) [
        | inl none_kept ↦
            let stop : call_tool server name r
                ≡ err ("MCP server " ++ server ++ " is not healthy") =
              unfold call_tool in rw (live, call_tool) (rw none_kept refl) in
            absurd (no_result (sym stop ∙ h))
        | inr (s, kept) ↦ elim (Bool-cases (is_healthy s.status)) [
          | inr sick ↦
              let stop : call_tool server name r
                  ≡ err ("MCP server " ++ server ++ " is not healthy") =
                unfold call_tool in rw (live, call_tool) (rw kept (rw sick refl)) in
              absurd (no_result (sym stop ∙ h))
          | inl well ↦ elim (Bool-cases (any (λ (t : ToolRecord). t.name == name) s.tools)) [
            | inr missing ↦
                let stop : call_tool server name r
                    ≡ err ("tool " ++ quoted name ++ " is not registered for server " ++ server) =
                  unfold call_tool in rw (live, call_tool) (rw kept (rw well (rw missing refl))) in
                absurd (no_result (sym stop ∙ h))
            | inl listed ↦
                let step : call_tool server name r ≡ ok n =
                  unfold call_tool in rw (live, call_tool) (rw kept (rw well (rw listed refl))) in
                let it : n ≡ session = ok_injective (sym step ∙ h) in
                let (m, known, enabled) = live_server (off server) server _ _ _ n sound live in
                record {
                  manifest = m;
                  state = s;
                  known = known;
                  enabled = enabled;
                  kept = kept;
                  well = well;
                  listed = listed;
                  live = live ∙ ap some it;
                }
          ]
        ]
      ]
    ]

-- Over any steps on a new registry, with those of several `SetEnabled` in any order, a tool call goes
-- through only to a healthy server with a manifest and a session, for a tool that the server has
-- listed. The server is enabled, or a `SetEnabled` has written that it is not and has still to take
-- the session away.
pub Reach-call_tool :
    (servers : List ServerManifest) {off : String → Bool} {r : Registry} (server name : String)
    (session : ℕ)
    → Reach (new servers) off r
    → call_tool server name r ≡ ok session
    → MayCall off server name r session
Reach-call_tool servers {off} server name session before h =
    call_tool-MayCall off server name _ session (Reach-IsSound servers before server) h

-- A tool of an enabled and healthy server.
pub record IsOffered (c : ToolCapability) (states : Dict ServerState) : Type 0 where
  pub server : String
  pub state : ServerState
  pub tool : ToolRecord
  pub kept : Memᴰ (server, state) states
  pub well : is_healthy state.status ≡ true
  pub enabled : state.manifest.enabled ≡ true
  pub listed : Memᴰ tool state.tools
  pub is_tool : (c.server_id ≡ state.manifest.id) × (c.name ≡ tool.name)

capabilities-mem :
    (server : String) (c : ToolCapability) (ts : List ToolRecord)
    → Memᴰ c (capabilities server ts)
    → (t : ToolRecord) × Memᴰ t ts × ((c.server_id ≡ server) × (c.name ≡ t.name))
unfolding capabilities
capabilities-mem server c [] m = elim m [ ]
capabilities-mem server c (t ∷ ts) (Memᴰ.head e) = (
  t,
  Memᴰ.head refl,
  (ap (λ (x : ToolCapability). x.server_id) e, ap (λ (x : ToolCapability). x.name) e),
)
capabilities-mem server c (t ∷ ts) (Memᴰ.tail m) =
    let (u, there, is) = capabilities-mem server c ts m in (u, Memᴰ.tail there, is)

append-mem {ℓ} :
    {A : Type ℓ} (c : A) (xs ys : List A) → Memᴰ c (append xs ys) → Memᴰ c xs ⊎ Memᴰ c ys
append-mem c [] ys m = inr m
append-mem c (x ∷ xs) ys (Memᴰ.head e) = inl (Memᴰ.head e)
append-mem c (x ∷ xs) ys (Memᴰ.tail m) = elim (append-mem c xs ys m) [
  | inl a ↦ inl (Memᴰ.tail a)
  | inr b ↦ inr b
]

IsOffered-later :
    (c : ToolCapability) (id : String) (s : ServerState) (states : Dict ServerState)
    → IsOffered c states
    → IsOffered c ((id, s) ∷ states)
IsOffered-later c id s states o = record {
  server = o.server;
  state = o.state;
  tool = o.tool;
  kept = Memᴰ.tail o.kept;
  well = o.well;
  enabled = o.enabled;
  listed = o.listed;
  is_tool = o.is_tool;
}

offered-IsOffered :
    (c : ToolCapability) (states : Dict ServerState) → Memᴰ c (offered states) → IsOffered c states
offered-IsOffered c [] m = let nothing : Memᴰ c [] = unfold offered in m in elim nothing [ ]
offered-IsOffered c ((id, s) ∷ states) m =
    let rest = offered-IsOffered c states in
    elim (Bool-cases (not (is_healthy s.status) || not s.manifest.enabled)) [
      | inl skipped ↦
          let step : offered ((id, s) ∷ states) ≡ offered states =
            unfold offered in rw (skipped, offered) refl in
          IsOffered-later c id s states (rest (subst (λ ys. Memᴰ c ys) step m))
      | inr taken_in ↦
          let step : offered ((id, s) ∷ states)
              ≡ append (capabilities s.manifest.id s.tools) (offered states) =
            unfold offered in rw (taken_in, offered) refl in
          elim (append-mem c (capabilities s.manifest.id s.tools) (offered states)
            (subst (λ ys. Memᴰ c ys) step m)) [
              | inr later ↦ IsOffered-later c id s states (rest later)
              | inl mine ↦
                  let (t, listed, is) = capabilities-mem s.manifest.id c s.tools mine in
                  record {
                    server = id;
                    state = s;
                    tool = t;
                    kept = Memᴰ.head refl;
                    well = ground (arith, taken_in);
                    enabled = ground (arith, taken_in);
                    listed = listed;
                    is_tool = is;
                  }
            ]
    ]

-- Every tool that is offered to the planner is listed by a server that is enabled and healthy.
pub available_tools-IsOffered :
    (c : ToolCapability) (r : Registry) → Memᴰ c (available_tools r) → IsOffered c r.states
available_tools-IsOffered c r m =
    offered-IsOffered c r.states
      (sort_by-mem capability_before c (offered r.states) (unfold available_tools in m))
