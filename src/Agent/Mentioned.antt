-- ===== src/Agent/Mentioned.antt =====
-- internal/agent/general_scope.go: where the paths of a scope come from.
use safeops_agent.Agent.Mentions.{
  bare_path, derive_read_scope, is_ambiguous_followup, is_resumed, mention_negated,
  mentions_other_topic, no_paths, normalized_unique_paths, path_mentions, request_path_scopes,
  scope_of, select_mentions, unique_paths,
}
use safeops_agent.Agent.Scope.{ReadScope}
use safeops_agent.Prelude.{
  Bool, Bool-cases, List, Option, String, [], any, ap, arith, bool_eq, clean, false, inl, inr,
  is_abs, none, refl, some, sort_by-mem, subst, sym, text_lt, true, ◌&&◌, ◌==◌, ◌∙◌, ◌∷◌, ◌≡◌, ◌⊎◌,
}
use mathlib.Core.List.{Memᴰ}

-- The normal form of a path that is absolute without the punctuation around it.
abbrev pub IsNormalOf : String → String → Type 0
IsNormalOf path value = (is_abs (bare_path value) ≡ true) × (path ≡ clean (bare_path value))

unique_paths-mem :
    (seen values : List String) (path : String)
    → Memᴰ path (unique_paths seen values)
    → (value : String) × Memᴰ value values × IsNormalOf path value
unfolding unique_paths
unique_paths-mem seen [] path m = elim m [ ]
unique_paths-mem seen (v ∷ vs) path m = elim (Bool-cases (is_abs (bare_path v))) [
  | inr relative ↦
      let (w, there, normal) = unique_paths-mem seen vs path (rw relative at m) in
      (w, Memᴰ.tail there, normal)
  | inl absolute ↦ elim (Bool-cases (any (λ s. s == clean (bare_path v)) seen)) [
    | inl twice ↦
        let (w, there, normal) = unique_paths-mem seen vs path (rw (absolute, twice) at m) in
        (w, Memᴰ.tail there, normal)
    | inr once ↦ elim (rw (absolute, once) at m) [
      | Memᴰ.head e ↦ (v, Memᴰ.head refl, (absolute, e))
      | Memᴰ.tail rest ↦
          let (w, there, normal) = unique_paths-mem (clean (bare_path v) ∷ seen) vs path rest in
          (w, Memᴰ.tail there, normal)
    ]
  ]
]

select_mentions-mem :
    (negated : Bool) (mentions : List (String × String)) (path : String)
    → Memᴰ path (select_mentions negated mentions)
    → (before : String) × Memᴰ (before, path) mentions
      × (bool_eq (mention_negated before) negated ≡ true)
unfolding select_mentions
select_mentions-mem negated [] path m = elim m [ ]
select_mentions-mem negated ((before, p) ∷ mentions) path m =
    elim (Bool-cases (bool_eq (mention_negated before) negated)) [
      | inr other ↦
          let (b, there, is) = select_mentions-mem negated mentions path (rw other at m) in
          (b, Memᴰ.tail there, is)
      | inl alike ↦ elim (rw alike at m) [
        | Memᴰ.head e ↦ (before, Memᴰ.head (ap (λ q. (before, q)) e), alike)
        | Memᴰ.tail rest ↦
            let (b, there, is) = select_mentions-mem negated mentions path rest in
            (b, Memᴰ.tail there, is)
      ]
    ]

-- A mention of the path in the request, negated or not.
abbrev pub IsMentioned : (String → List (String × String)) → String → Bool → String → Type 0
IsMentioned matches request negated path =
    (before value : String) × Memᴰ (before, value) (path_mentions matches request)
    × (mention_negated before ≡ negated)
    × IsNormalOf path value

-- A path that the operator selected before.
abbrev pub IsSelected : List String → String → Type 0
IsSelected selected path = (value : String) × Memᴰ value selected × IsNormalOf path value

-- Where the paths of a scope come from.
pub record IsDerived (matches : String → List (String × String)) (request : String)
    (selected : List String) (scope : ReadScope) : Type 0 where
  pub excluded :
      (path : String) → Memᴰ path scope.excluded_paths → IsMentioned matches request true path
  pub authorized :
      (path : String)
      → Memᴰ path scope.authorized_paths
      → IsMentioned matches request false path
        ⊎ (IsSelected selected path
            × (is_ambiguous_followup request ≡ true)
            × (mentions_other_topic request ≡ false))

normalized-mem :
    (values : List String) (path : String)
    → Memᴰ path (normalized_unique_paths values)
    → (value : String) × Memᴰ value values × IsNormalOf path value
unfolding normalized_unique_paths
normalized-mem values path m =
    unique_paths-mem [] values path (sort_by-mem text_lt path (unique_paths [] values) m)

bool_eq-true : (a b : Bool) → bool_eq a b ≡ true → a ≡ b
bool_eq-true a b h = ground (arith, h)

asked-IsMentioned :
    (matches : String → List (String × String)) (request : String) (negated : Bool) (path : String)
    → Memᴰ path (normalized_unique_paths (select_mentions negated (path_mentions matches request)))
    → IsMentioned matches request negated path
asked-IsMentioned matches request negated path m =
    let (value, there, normal) = normalized-mem _ path m in
    let (before, mention, is) =
      select_mentions-mem negated (path_mentions matches request) value there in
    (before, value, mention, bool_eq-true _ _ is, normal)

listed-IsMentioned :
    (matches : String → List (String × String)) (request path : String)
    → Memᴰ path (request_path_scopes matches request).0
    → IsMentioned matches request false path
unfolding request_path_scopes
listed-IsMentioned matches request path m = asked-IsMentioned matches request false path m

excluded-IsMentioned :
    (matches : String → List (String × String)) (request path : String)
    → Memᴰ path (request_path_scopes matches request).1
    → IsMentioned matches request true path
unfolding request_path_scopes
excluded-IsMentioned matches request path m = asked-IsMentioned matches request true path m

is_resumed-true :
    (asked : List String) (request : String)
    → is_resumed asked request ≡ true
    → (is_ambiguous_followup request ≡ true) × (mentions_other_topic request ≡ false)
unfolding is_resumed
is_resumed-true asked request h = (ground (arith, h), ground (arith, h))

no_scope : {s : ReadScope} → ◌≡◌ {A = Option ReadScope} none (some s) → ⊥
no_scope h = cc

scope_injective : {a b : ReadScope} → some a ≡ some b → a ≡ b
scope_injective h = cc

scope_of-some :
    (paths excluded : List String) (source : String) (scope : ReadScope)
    → scope_of paths excluded source ≡ some scope
    → (scope.authorized_paths ≡ paths) × (scope.excluded_paths ≡ excluded)
unfolding scope_of
scope_of-some paths excluded source scope h =
    elim (Bool-cases (no_paths paths && no_paths excluded)) [
      | inl bare ↦ absurd (no_scope (rw bare at h))
      | inr something ↦
          let is = sym (scope_injective (rw something at h)) in
          (
            ap (λ (s : ReadScope). s.authorized_paths) is,
            ap (λ (s : ReadScope). s.excluded_paths) is,
          )
    ]

-- A scope that is derived from a request excludes only paths that the request mentions and negates.
-- Each path that it authorises is mentioned and not negated; or it was selected before, the request
-- refers back and names no other topic. Every such path is absolute, without the punctuation around
-- it, and clean.
pub derive_read_scope-IsDerived :
    (matches : String → List (String × String)) (request : String) (selected : List String)
    (scope : ReadScope)
    → derive_read_scope matches request selected ≡ some scope
    → IsDerived matches request selected scope
derive_read_scope-IsDerived matches request selected scope h =
    let asked = (request_path_scopes matches request).0 in
    let excluded = (request_path_scopes matches request).1 in
    elim (Bool-cases (is_resumed asked request)) [
      | inl resumed ↦
          let step : derive_read_scope matches request selected
              ≡ scope_of (normalized_unique_paths selected) excluded "session.selected_resources" =
            unfold derive_read_scope in rw (resumed, derive_read_scope) refl in
          let (a, e) = scope_of-some _ _ _ scope (sym step ∙ h) in
          let (back, plain) = is_resumed-true asked request resumed in
          record {
            excluded = λ path m.
                excluded-IsMentioned matches request path (subst (λ ps. Memᴰ path ps) e m);
            authorized = λ path m.
                inr (normalized-mem selected path (subst (λ ps. Memᴰ path ps) a m), back, plain);
          }
      | inr fresh ↦
          let step : derive_read_scope matches request selected
              ≡ scope_of asked excluded "request" =
            unfold derive_read_scope in rw (fresh, derive_read_scope) refl in
          let (a, e) = scope_of-some _ _ _ scope (sym step ∙ h) in
          record {
            excluded = λ path m.
                excluded-IsMentioned matches request path (subst (λ ps. Memᴰ path ps) e m);
            authorized = λ path m.
                inl (listed-IsMentioned matches request path (subst (λ ps. Memᴰ path ps) a m));
          }
    ]
