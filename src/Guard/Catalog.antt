-- ===== src/Guard/Catalog.antt =====
-- internal/guard/catalog.go. Reading and parsing the file are parameters; a nil catalogue, whose
-- version is the empty text and whose other methods panic, is left out.
use Prim.Native.String.{◌++◌}
use safeops_agent.Prelude.{
  ℕ, String, Bool, true, false, not, ◌&&◌, ◌||◌, List, [], ◌∷◌, none, some, ◌==◌, eqb, Result, ok,
  err, ◌>>=◌, ◌>>◌, refuse_if, Dict, lookup, insert, trim_space, if◌then◌else◌,
}
use safeops_agent.Contracts.Action.{Effect, read, write, RiskLevel, other_level, effect_eq}

pub record ToolPolicy : Type 0 where
  pub name : String
  pub effect : Effect
  pub base_risk : RiskLevel
  pub approval : Bool
  pub reversible : Bool
  pub allowed_target_types : List String
  pub rule_id : String

pub record CatalogFile : Type 0 where
  pub schema_version : ℕ
  pub tools : List ToolPolicy

pub record Catalog : Type 0 where
  pub schema_version : ℕ
  pub version : String
  pub tools : Dict ToolPolicy

-- Go's zero value, which a lookup that misses returns.
abbrev pub zero_policy : ToolPolicy
zero_policy = record {
  name = "";
  effect = Effect.other_effect "";
  base_risk = other_level "";
  approval = false;
  reversible = false;
  allowed_target_types = [];
  rule_id = "";
}

-- The loop of `LoadCatalog` over the tools of the file.
unfoldable pub load_tools : List ToolPolicy → Dict ToolPolicy → Result (Dict ToolPolicy)
load_tools [] tools = ok tools
load_tools (p ∷ ps) tools =
    let rest = load_tools ps (insert p.name p tools) in
    if p.name == "" || p.rule_id == ""
    then err "tool policy requires name and rule_id"
    else if not (effect_eq p.effect read) && not (effect_eq p.effect write)
    then err ("tool " ++ p.name ++ " has invalid effect")
    else elim (lookup p.name tools) [
      | some _ ↦ err ("duplicate tool policy " ++ p.name)
      | none ↦ rest
    ]

-- `LoadCatalog`: `file` is what `os.ReadFile` returned, `parse` is `yaml.Unmarshal`, `sha256_hex`
-- the hexadecimal SHA-256.
unfoldable pub load_catalog :
    (String → Result CatalogFile) → (String → String) → Result String → Result Catalog
load_catalog parse sha256_hex (err e) = err ("read tool policy: " ++ e)
load_catalog parse sha256_hex (ok b) = elim (parse b) [
  | err e ↦ err ("parse tool policy: " ++ e)
  | ok raw ↦ do
    refuse_if (not (eqb raw.schema_version 1)) "unsupported policy schema version"
    tools ← load_tools raw.tools []
    ok (record {
      schema_version = raw.schema_version;
      version = "sha256:" ++ sha256_hex b;
      tools = tools;
    })
]

-- `Policy`: the policy, and whether there is one.
unfoldable pub policy : Catalog → String → ToolPolicy × Bool
policy c tool = elim (lookup (trim_space tool) c.tools) [
  | none ↦ (zero_policy, false)
  | some p ↦ (p, true)
]
