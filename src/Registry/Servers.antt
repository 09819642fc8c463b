-- ===== src/Registry/Servers.antt =====
-- internal/registry/registry.go: `Discover`. The operations that change a session hold the lifecycle
-- mutex from their first access to it to their last.
use safeops_agent.Prelude.{
  Bool, Error, List, Option, Result, String, [], erase, err, if◌then◌else◌, inl, inr, insert,
  lookup, map, none, not, ok, some, sort_by, text_lt, trim_space, ℕ, ◌==◌, ◌>>=◌, ◌||◌, ◌∷◌, ◌⊎◌,
}
use safeops_agent.Registry.{ServerManifest, ToolRecord, quoted, starting}
use safeops_agent.Registry.Health.{dependency_failure, inspect_dependencies}
use safeops_agent.Registry.States.{
  Answer, Environment, Registry, Tool, discovered, discovery_failed, update_state,
}
use Prim.Native.String.{◌++◌}

-- `listTools`
unfoldable pub list_tools :
    Environment → String → String → ℕ → List (Result Tool) → Result (List ToolRecord)
list_tools env server version now [] = ok []
list_tools env server version now (listed ∷ rest) = listed >>= λ t. t.encoded >>= λ schema.
    t.input_schema >>= λ input. list_tools env server version now rest >>= λ records. ok (
      record {
        server_id = server;
        name = t.name;
        description = t.description;
        input_schema = input;
        schema_hash = env.sha256_hex schema;
        discovered_at = now;
        server_version = version;
      }
      ∷ records)

by_name : ToolRecord → ToolRecord → Bool
by_name a b = text_lt a.name b.name

-- `toolSetHash`
unfoldable pub tool_set_hash : Environment → List ToolRecord → Result String
tool_set_hash env records =
    env.marshal_tool_set (
      sort_by (λ a b. text_lt a.0 b.0)
        (map (λ r. (r.name, r.schema_hash, r.server_version)) records))
    >>= λ b. ok (env.sha256_hex b)

-- The three texts of the server, where none is blank.
unfoldable pub server_info : Option (String × String × String) → Option (String × String × String)
server_info none = none
server_info (some (name, version, protocol)) =
    if trim_space name == "" || trim_space version == "" || trim_space protocol == ""
    then none
    else some (name, version, protocol)

abbrev pub no_info : String × String × String
no_info = ("", "", "")

-- What `Discover` learns from a server.
pub record Connection : Type 0 where
  pub session : ℕ
  pub info : String × String × String
  pub tools : List ToolRecord
  pub digest : String

-- The part of `Discover` that talks to the server: what it learns, or the error to return, the one to record, and what is known of the server.
unfoldable pub contact :
    Environment
    → ServerManifest
    → Answer
    → (Error × Error × (String × String × String)) ⊎ Connection
unfolding by_name
contact env m a =
    let named : Error → Error = λ e. "connect MCP server " ++ m.id ++ ": " ++ e in
    let silent : Error =
      "initialize result omitted actual server name, version, or protocol version" in
    elim a.connected [
      | err e ↦ inl (named e, e, no_info)
      | ok session ↦ elim (server_info a.info) [
        | none ↦ inl (named silent, silent, no_info)
        | some (name, version, protocol) ↦ elim (list_tools env m.id version a.now a.tools) [
          | err e ↦ inl ("discover MCP server " ++ m.id ++ ": " ++ e, e, (name, version, protocol))
          | ok listed ↦
              let tools = sort_by by_name listed in
              elim (tool_set_hash env tools) [
                | err e ↦ inl (
                  "fingerprint MCP server " ++ m.id ++ " tool set: " ++ e,
                  e,
                  (name, version, protocol),
                )
                | ok digest ↦ inr (record {
                  session = session;
                  info = (name, version, protocol);
                  tools = tools;
                  digest = digest;
                })
              ]
        ]
      ]
    ]

-- `Discover`; `none` is a nil error.
unfoldable pub discover : Environment → Answer → String → Registry → Option Error × Registry
unfolding contact
discover env a id r = elim (lookup id r.manifests) [
  | none ↦ (some ("unknown MCP server " ++ quoted id), r)
  | some m ↦
      if not m.enabled
      then (some ("MCP server " ++ id ++ " is disabled"), r)
      else let begun = update_state id (λ s. record s { status = starting; error = "" }) r in
        let cut = record begun { sessions = erase id begun.sessions } in
        let (checks, fine) = inspect_dependencies env.machine m.dependencies a.now in
        elim (dependency_failure checks) [
          | some e ↦ (some e, update_state id (discovery_failed env checks no_info e a) cut)
          | none ↦ elim (contact env m a) [
            | inl (e, cause, info) ↦
                (some e, update_state id (discovery_failed env checks info cause a) cut)
            | inr c ↦ (
              none,
              update_state id (discovered checks fine c.info c.tools c.digest a)
                  (record cut { sessions = insert id c.session cut.sessions }),
            )
          ]
        ]
]
