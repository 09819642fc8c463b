-- ===== src/Guard/Loading.antt =====
-- internal/guard/catalog.go: what a loaded catalogue holds.
use mathlib.Core.List.{Memᴰ}
use safeops_agent.Prelude.{
  ==-refl, ◌≡◌, ◌≢◌, ◌⊎◌, inl, inr, String, true, List, [], ◌∷◌, none, some, ==→eq, ==→ne, Result,
  ok, Dict, lookup, insert, lookup-insert, trim_space, arith, Result-cases,
}
use safeops_agent.Contracts.Action.{read, write, effect_eq}
use safeops_agent.Guard.Catalog.{ToolPolicy, CatalogFile, Catalog, load_tools, load_catalog, policy}

-- One round of the loop that did not fail.
load_tools-cons :
    (p : ToolPolicy) (ps : List ToolPolicy) (tools t : Dict ToolPolicy)
    → load_tools (p ∷ ps) tools ≡ ok t
    → (load_tools ps (insert p.name p tools) ≡ ok t)
      × (lookup p.name tools ≡ none)
      × (p.name ≢ "")
      × (p.rule_id ≢ "")
      × ((p.effect ≡ read) ⊎ (p.effect ≡ write))
unfolding load_tools effect_eq
load_tools-cons p ps tools t h =
    (ground arith, ground arith, ==→ne _ _ (ground arith), ==→ne _ _ (ground arith), ground arith)

load_tools-nil : {A B : Dict ToolPolicy} → load_tools [] A ≡ ok B → A ≡ B
unfolding load_tools
load_tools-nil h = cc

load_tools-keeps :
    (ps : List ToolPolicy) (tools t : Dict ToolPolicy) (k : String) {q : ToolPolicy}
    → load_tools ps tools ≡ ok t
    → lookup k tools ≡ some q
    → lookup k t ≡ some q
load_tools-keeps [] tools t k h e = rw (← load_tools-nil h) e
load_tools-keeps (p ∷ ps) tools t k {q} h e =
    let (rest, fresh, _, _, _) = load_tools-cons p ps tools t h in
    load_tools-keeps ps (insert p.name p tools) t k rest
      (ground (arith, lookup-insert p.name k p tools, ==→eq p.name k))

load_tools-mem :
    (ps : List ToolPolicy) (tools t : Dict ToolPolicy) {p : ToolPolicy}
    → load_tools ps tools ≡ ok t
    → Memᴰ p ps
    → (lookup p.name t ≡ some p) × (p.rule_id ≢ "") × ((p.effect ≡ read) ⊎ (p.effect ≡ write))
load_tools-mem [] tools t h m = elim m [ ]
load_tools-mem (q ∷ ps) tools t {p} h (Memᴰ.head e) =
    let (rest, fresh, named, ruled, kind) = load_tools-cons q ps tools t h in
    let found : lookup q.name (insert q.name q tools) ≡ some q = rw lookup-insert (rw ==-refl) in
    rw e (load_tools-keeps ps _ t q.name rest found, ruled, kind)
load_tools-mem (q ∷ ps) tools t h (Memᴰ.tail m) =
    load_tools-mem ps _ t (load_tools-cons q ps tools t h).0 m

-- A policy file that loads has no tool without a rule or with an unknown effect, and none of its
-- tools hides another: a tool whose name has no white space around it is the policy that the
-- catalogue returns for every text that is this name when the white space around it is cut off.
pub policy-load_catalog :
    (parse : String → Result CatalogFile) (sha256_hex : String → String) (b : String)
    {raw : CatalogFile} {c : Catalog} {p : ToolPolicy} (tool : String)
    → parse b ≡ ok raw
    → load_catalog parse sha256_hex (ok b) ≡ ok c
    → Memᴰ p raw.tools
    → trim_space tool ≡ p.name
    → (policy c tool ≡ (p, true)) × (p.rule_id ≢ "") × ((p.effect ≡ read) ⊎ (p.effect ≡ write))
unfolding load_catalog policy
policy-load_catalog parse sha256_hex b {raw} {c} {p} tool parsed h m e =
    elim (Result-cases (load_tools raw.tools [])) [
      | inl (x, bad) ↦ ground arith
      | inr (t, good) ↦
          let (found, ruled, kind) = load_tools-mem raw.tools [] t good m in
          (ground arith, ruled, kind)
    ]
