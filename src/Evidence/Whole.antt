-- ===== src/Evidence/Whole.antt =====
-- internal/evidence/graph.go: what every sequence of calls keeps.
use safeops_agent.Evidence.{
  Edge, Graph, Node, NodeType, edge_key, has_node, link, new, node_type_eq, other_node, upsert,
}
use safeops_agent.Prelude.{
  ==-refl, ==→eq, ==→ne, Bool-cases, Option, Option-cases, String, ap, arith, eq→==, false,
  if◌then◌else◌, inl, inr, insert, lookup, lookup-insert, none, refl, some, subst, sym, true, ◌==◌,
  ◌||◌, ◌∙◌, ◌≡◌, ◌≢◌,
}

pub data Call : Type 0 where
  upsert_call : Node → Call
  link_call : Edge → Call

unfoldable pub apply : Call → Graph → Graph
apply (upsert_call n) g = (upsert n g).1
apply (link_call e) g = (link e g).1

-- The graphs that any sequence of calls reaches.
pub data Reach (g : Graph) : Graph → Type 0 where
  here : Reach g g
  call : {h : Graph} → Reach g h → (c : Call) → Reach g (apply c h)

-- A node of this ID is there.
abbrev pub IsNode : String → Graph → Type 0
IsNode id g = (n : Node) × (lookup id g.nodes ≡ some n)

-- Every node stands under its ID, with an ID and a type; and every edge joins two nodes by a
-- relation that is not empty.
pub record IsWhole (g : Graph) : Type 0 where
  pub named :
      (k : String) (n : Node)
      → lookup k g.nodes ≡ some n
      → (n.id ≡ k) × (k ≢ "") × (node_type_eq n.kind (other_node "") ≡ false)
  pub joined :
      (k : String) (e : Edge)
      → lookup k g.edges ≡ some e
      → IsNode e.source g × IsNode e.target g × (e.relation ≢ "")

-- The nodes of one graph are nodes of the other, with the same types.
pub record Grows (g h : Graph) : Type 0 where
  pub node_kept :
      (k : String) (n : Node)
      → lookup k g.nodes ≡ some n
      → (m : Node) × (lookup k h.nodes ≡ some m) × (node_type_eq n.kind m.kind ≡ true)
  pub edge_kept :
      (k : String) (e : Edge) → lookup k g.edges ≡ some e → (f : Edge) × (lookup k h.edges ≡ some f)

-- What a call does: nothing, or one node of its type, or one edge between nodes.
data Step (g h : Graph) : Type 0 where
  same : h ≡ g → Step g h
  put :
      (n : Node)
      → n.id ≢ ""
      → node_type_eq n.kind (other_node "") ≡ false
      → ((m : Node) → lookup n.id g.nodes ≡ some m → node_type_eq m.kind n.kind ≡ true)
      → h ≡ record g { nodes = insert n.id n g.nodes }
      → Step g h
  join :
      (e : Edge)
      → IsNode e.source g
      → IsNode e.target g
      → e.relation ≢ ""
      → h ≡ record g { edges = insert (edge_key e) e g.edges }
      → Step g h

upsert-Step : (n : Node) (g : Graph) → Step g (upsert n g).1
upsert-Step n g = elim (Bool-cases (n.id == "" || node_type_eq n.kind (other_node ""))) [
  | inl bad ↦ same (unfold upsert in rw (bad, upsert))
  | inr good ↦ elim (Option-cases (lookup n.id g.nodes)) [
    | inl fresh ↦
        put n (==→ne n.id "" (ground arith)) (ground arith) (λ m at. cc)
          (unfold upsert in rw (good, upsert) (rw fresh))
    | inr (m, found) ↦ elim (Bool-cases (node_type_eq m.kind n.kind)) [
      | inr other ↦ same (unfold upsert in rw (good, upsert) (rw found (rw other)))
      | inl alike ↦
          put n (==→ne n.id "" (ground arith)) (ground arith) (λ q at. ground arith)
            (unfold upsert in rw (good, upsert) (rw found (rw alike)))
    ]
  ]
]

has_node-IsNode : (id : String) (g : Graph) → has_node id g ≡ true → IsNode id g
unfolding has_node
has_node-IsNode id g h = elim (Option-cases (lookup id g.nodes)) [
  | inl absent ↦ absurd (ground arith)
  | inr (n, found) ↦ (n, found)
]

link-Step : (e : Edge) (g : Graph) → Step g (link e g).1
link-Step e g = elim (Bool-cases (e.source == "" || e.target == "" || e.relation == "")) [
  | inl bad ↦ same (unfold link in rw (bad, link))
  | inr good ↦ elim (Bool-cases (has_node e.source g)) [
    | inr absent ↦ same (unfold link in rw (good, link) (rw absent))
    | inl from ↦ elim (Bool-cases (has_node e.target g)) [
      | inr absent ↦ same (unfold link in rw (good, link) (rw from (rw absent)))
      | inl to ↦
          join e (has_node-IsNode e.source g from) (has_node-IsNode e.target g to)
            (==→ne e.relation "" (ground arith)) (unfold link in rw (good, link) (rw from (rw to)))
    ]
  ]
]

apply-Step : (c : Call) (g : Graph) → Step g (apply c g)
unfolding apply
apply-Step (upsert_call n) g = upsert-Step n g
apply-Step (link_call e) g = link-Step e g

node_type_eq_refl : (a : NodeType) → node_type_eq a a ≡ true
unfolding node_type_eq
node_type_eq_refl a = ==-refl _

node_type_eq_trans :
    (a b c : NodeType) → node_type_eq a b ≡ true → node_type_eq b c ≡ true → node_type_eq a c ≡ true
unfolding node_type_eq
node_type_eq_trans a b c h k = eq→== _ _ (==→eq _ _ h ∙ ==→eq _ _ k)

Step-Grows : {g h : Graph} → Step g h → Grows g h
Step-Grows {g} {h} (same e) = record {
  node_kept = λ k n at. (n, ap (λ (q : Graph). lookup k q.nodes) e ∙ at, node_type_eq_refl n.kind);
  edge_kept = λ k f at. (f, ap (λ (q : Graph). lookup k q.edges) e ∙ at);
}
Step-Grows {g} {h} (put n _ _ alike e) = record {
  node_kept = λ k m at. elim (Bool-cases (n.id == k)) [
    | inl hit ↦ (
      n,
      ap (λ (q : Graph). lookup k q.nodes) e ∙ rw (lookup-insert, hit),
      alike m (ap (λ j. lookup j g.nodes) (==→eq n.id k hit) ∙ at),
    )
    | inr miss ↦ (
      m,
      ap (λ (q : Graph). lookup k q.nodes) e ∙ rw (lookup-insert, miss) at,
      node_type_eq_refl m.kind,
    )
  ];
  edge_kept = λ k f at. (f, ap (λ (q : Graph). lookup k q.edges) e ∙ at);
}
Step-Grows {g} {h} (join f _ _ _ e) = record {
  node_kept = λ k n at. (n, ap (λ (q : Graph). lookup k q.nodes) e ∙ at, node_type_eq_refl n.kind);
  edge_kept = λ k d at. elim (Bool-cases (edge_key f == k)) [
    | inl hit ↦ (f, ap (λ (q : Graph). lookup k q.edges) e ∙ rw (lookup-insert, hit))
    | inr miss ↦ (d, ap (λ (q : Graph). lookup k q.edges) e ∙ rw (lookup-insert, miss) at)
  ];
}

IsNode-Grows : {g h : Graph} (id : String) → Grows g h → IsNode id g → IsNode id h
IsNode-Grows id w (n, at) = let (m, at', _) = w.node_kept id n at in (m, at')

some_injective {ℓ} : {A : Type ℓ} {a b : A} → some a ≡ some b → a ≡ b
some_injective h = cc

Step-IsWhole : {g h : Graph} → Step g h → IsWhole g → IsWhole h
Step-IsWhole (same e) w = subst IsWhole (sym e) w
Step-IsWhole {g} {h} (put n named typed alike e) w = record {
  named = λ k m at.
      let at' : (if n.id == k then some n else lookup k g.nodes) ≡ some m =
        sym (lookup-insert n.id k n g.nodes) ∙ ap (λ (q : Graph). lookup k q.nodes) (sym e) ∙ at in
      elim (Bool-cases (n.id == k)) [
        | inl hit ↦
            let one : n ≡ m = some_injective (rw hit at at') in
            subst
              (λ (q : Node). (q.id ≡ k) × (k ≢ "") × (node_type_eq q.kind (other_node "") ≡ false))
              one (==→eq n.id k hit, subst (λ j. j ≢ "") (==→eq n.id k hit) named, typed)
        | inr miss ↦ w.named k m (rw miss at at')
      ];
  joined = λ k f at.
      let grown = Step-Grows (put n named typed alike e) in
      let (a, b, c) = w.joined k f (ap (λ (q : Graph). lookup k q.edges) (sym e) ∙ at) in
      (IsNode-Grows f.source grown a, IsNode-Grows f.target grown b, c);
}
Step-IsWhole {g} {h} (join f from to named e) w = record {
  named = λ k m at. w.named k m (ap (λ (q : Graph). lookup k q.nodes) (sym e) ∙ at);
  joined = λ k d at.
      let grown = Step-Grows (join f from to named e) in
      let at' : (if edge_key f == k then some f else lookup k g.edges) ≡ some d =
        sym (lookup-insert (edge_key f) k f g.edges)
        ∙ ap (λ (q : Graph). lookup k q.edges) (sym e)
        ∙ at in
      let (a, b, c) =
        elim (Bool-cases (edge_key f == k))
          as (λ _. IsNode d.source g × IsNode d.target g × (d.relation ≢ "")) [
            | inl hit ↦
                subst (λ (q : Edge). IsNode q.source g × IsNode q.target g × (q.relation ≢ ""))
                  (some_injective (rw hit at at')) (from, to, named)
            | inr miss ↦ w.joined k d (rw miss at at')
          ] in
      (IsNode-Grows d.source grown a, IsNode-Grows d.target grown b, c);
}

Grows-refl : (g : Graph) → Grows g g
Grows-refl g = Step-Grows (same refl)

no_value {ℓ} : {A : Type ℓ} {a : A} → ◌≡◌ {A = Option A} none (some a) → ⊥
no_value h = cc

new-IsWhole : IsWhole new
unfolding lookup
new-IsWhole = record {
  named = λ k n at. absurd (no_value at);
  joined = λ k e at. absurd (no_value at);
}

Grows-trans : {f g h : Graph} → Grows f g → Grows g h → Grows f h
Grows-trans a b = record {
  node_kept = λ k n at.
      let (m, at', e) = a.node_kept k n at in
      let (q, at'', e') = b.node_kept k m at' in
      (q, at'', node_type_eq_trans n.kind m.kind q.kind e e');
  edge_kept = λ k n at. let (m, at') = a.edge_kept k n at in b.edge_kept k m at';
}

keep-IsWhole : {g h : Graph} → Reach g h → IsWhole g → IsWhole h
keep-IsWhole here w = w
keep-IsWhole (call {h = h} r c) w = Step-IsWhole (apply-Step c h) (keep-IsWhole r w)

-- Over any calls from an empty graph, every node stands under its ID, with an ID and a type, and
-- every edge joins two nodes that are there, by a relation that is not empty.
pub Reach-IsWhole : {h : Graph} → Reach new h → IsWhole h
Reach-IsWhole r = keep-IsWhole r new-IsWhole

-- Over any calls from any graph, no node and no edge goes away, and no node changes its type.
pub Reach-Grows : {g h : Graph} → Reach g h → Grows g h
Reach-Grows {g} here = Grows-refl g
Reach-Grows (call {h = h} r c) = Grows-trans (Reach-Grows r) (Step-Grows (apply-Step c h))
