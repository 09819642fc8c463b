-- ===== src/Context.antt =====
-- internal/context/resolver.go: which selected resource a reference means. The index -1 of the code
-- is `none`. What the pattern of a numeral finds is a parameter, and so is the order in which Go
-- goes through the map of the ordinals: it is free.
use safeops_agent.Prelude.{
  Bool, List, Option, Result, String, [], any, eqb, err, get_elem?, if◌then◌else◌, length, none, ok,
  some, trim_space, ℕ, ◌&&◌, ◌-◌, ◌||◌, ◌∷◌,
}
use safeops_agent.Trace.Redaction.{contains_text}

-- The map of the ordinals.
abbrev pub ordinals : List (String × ℕ)
ordinals =
    ("第一个", 0)
    ∷ ("第一项", 0)
    ∷ ("首个", 0)
    ∷ ("第二个", 1)
    ∷ ("第二项", 1)
    ∷ ("第三个", 2)
    ∷ ("第三项", 2)
    ∷ ("第四个", 3)
    ∷ ("第四项", 3)
    ∷ ("第五个", 4)
    ∷ ("第五项", 4)
    ∷ []

-- The first ordinal of the order that the text contains.
unfoldable pub find_ordinal : List (String × ℕ) → String → Option ℕ
find_ordinal [] text = none
find_ordinal ((word, value) ∷ order) text =
    if contains_text text word then some value else find_ordinal order text

-- `value - 1`, where 0 gives -1.
before_it : ℕ → Option ℕ
before_it n = if eqb n 0 then none else some (n - 1)

-- `hasCurrentResourcePronoun`
unfoldable pub has_pronoun : String → Bool
has_pronoun value = any (contains_text value) ("这个" ∷ "该文件" ∷ "该项" ∷ "该资源" ∷ "它" ∷ [])

-- The index before it is tested.
unfoldable pub reference_index :
    (String → Option ℕ) → List (String × ℕ) → String → List String → Option ℕ
unfolding before_it
reference_index numeral order text resources =
    let first : Option ℕ = elim (numeral text) [
      | some n ↦ before_it n
      | none ↦ find_ordinal order text
    ] in
    let index : Option ℕ =
      if contains_text text "最后一个" || contains_text text "最后一项"
      then some (length resources - 1)
      else first in
    elim index [
      | some i ↦ some i
      | none ↦ if eqb (length resources) 1 && has_pronoun text then some 0 else none
    ]

picked : Option String → ℕ → Result (String × ℕ)
picked none i = err "resource ordinal is outside the selected list"
picked (some resource) i = ok (resource, i)

-- `ResolveResource`
unfoldable pub resolve_resource :
    (String → Option ℕ) → List (String × ℕ) → String → List String → Result (String × ℕ)
unfolding picked
resolve_resource numeral order reference resources =
    if eqb (length resources) 0
    then err "session has no selected resources"
    else elim (reference_index numeral order (trim_space reference) resources) [
      | none ↦ err "resource reference is ambiguous; use an explicit ordinal"
      | some i ↦ picked (get_elem? resources i) i
    ]
