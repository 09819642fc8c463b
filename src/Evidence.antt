-- ===== src/Evidence.antt =====
-- internal/evidence/graph.go: the graph of what was observed. The order of a Go map is free, so a
-- snapshot's order among edges that the sort does not tell apart is that of the dictionary here.
use safeops_agent.Json.{Fields}
use safeops_agent.Prelude.{
  Bool, Dict, Error, List, Option, String, [], false, if◌then◌else◌, insert, lookup, none, not,
  some, sort_by, text_lt, true, ◌==◌, ◌||◌, ◌∷◌,
}
use Prim.Native.String.{◌++◌}
pub mod Whole

pub data NodeType : Type 0 where
  host service process port file mount metric log_event config_snapshot : NodeType
  other_node : String → NodeType

pub record Node : Type 0 where
  pub id : String
  pub kind : NodeType
  pub label : String
  pub attributes : Fields
  pub evidence_refs : List String

pub record Edge : Type 0 where
  pub source : String
  pub target : String
  pub relation : String
  pub evidence_refs : List String

pub record Graph : Type 0 where
  pub nodes : Dict Node
  pub edges : Dict Edge

pub record Snapshot : Type 0 where
  pub nodes : List Node
  pub edges : List Edge

-- Equality of the Go texts.
node_type_text : NodeType → String
node_type_text host = "Host"
node_type_text service = "Service"
node_type_text process = "Process"
node_type_text port = "Port"
node_type_text file = "File"
node_type_text mount = "Mount"
node_type_text metric = "Metric"
node_type_text log_event = "LogEvent"
node_type_text config_snapshot = "ConfigSnapshot"
node_type_text (other_node s) = s

unfoldable pub node_type_eq : NodeType → NodeType → Bool
unfolding node_type_text
node_type_eq a b = node_type_text a == node_type_text b

-- `New`
abbrev pub new : Graph
new = record { nodes = []; edges = [] }

-- `Upsert`; `none` is a nil error.
unfoldable pub upsert : Node → Graph → Option Error × Graph
upsert n g =
    if n.id == "" || node_type_eq n.kind (other_node "")
    then (some "evidence node requires id and type", g)
    else elim (lookup n.id g.nodes) [
      | none ↦ (none, record g { nodes = insert n.id n g.nodes })
      | some existing ↦
          if not (node_type_eq existing.kind n.kind)
          then (some "evidence node type cannot change", g)
          else (none, record g { nodes = insert n.id n g.nodes })
    ]

-- The three parts with a zero character between them.
unfoldable pub edge_key : Edge → String
edge_key e = e.source ++ "\0" ++ e.relation ++ "\0" ++ e.target

unfoldable pub has_node : String → Graph → Bool
has_node id g = elim (lookup id g.nodes) [ none ↦ false | some _ ↦ true ]

-- `Link`
unfoldable pub link : Edge → Graph → Option Error × Graph
unfolding has_node
link e g =
    if e.source == "" || e.target == "" || e.relation == ""
    then (some "evidence edge is incomplete", g)
    else if not (has_node e.source g)
    then (some "edge source node missing", g)
    else if not (has_node e.target g)
    then (some "edge target node missing", g)
    else (none, record g { edges = insert (edge_key e) e g.edges })

values {ℓ} : {A : Type ℓ} → Dict A → List A
values [] = []
values ((k, v) ∷ m) = v ∷ values m

edge_before : Edge → Edge → Bool
unfolding text_lt
edge_before a b =
    if a.source == b.source then text_lt a.relation b.relation else text_lt a.source b.source

-- `Snapshot`
unfoldable pub snapshot : Graph → Snapshot
unfolding sort_by values edge_before text_lt
snapshot g = record {
  nodes = sort_by (λ a b. text_lt a.id b.id) (values g.nodes);
  edges = sort_by edge_before (values g.edges);
}
