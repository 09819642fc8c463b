-- ===== src/Agent/Mentions.antt =====
-- internal/agent/general_scope.go: how a request is read for paths. What the pattern of an absolute
-- path finds in a text is a parameter: each match with the text before it. The indices of the code
-- are replaced by the parts of the text that they cut off.
use safeops_agent.Agent.Scope.{ReadScope}
use safeops_agent.Prelude.{
  Bool, List, Option, String, [], any, bool_eq, clean, eqb, false, has_prefix, if◌then◌else◌,
  is_abs, leb, ltb, map, none, not, some, sort_by, text_lt, to_lower, trim_space, true, ℕ, ◌&&◌,
  ◌+◌, ◌==◌, ◌||◌, ◌∷◌,
}
use safeops_agent.Trace.Redaction.{contains_text}
use Prim.Native.String.{◌++◌}
use mathlib.Core.List.{◌++◌ as append}
use Prim.Native.Char.{Char, code}

-- The text before the first occurrence of a word.
text_before : String → String → Option String
text_before word String.[] = if word == "" then some "" else none
text_before word (String.◌∷◌ c s) =
    let rest = text_before word s in
    if has_prefix (String.◌∷◌ c s) word
    then some ""
    else elim rest [ none ↦ none | some b ↦ some (String.◌∷◌ c b) ]

-- What follows a prefix of a text.
text_from : String → String → String
text_from String.[] s = s
text_from (String.◌∷◌ c w) String.[] = ""
text_from (String.◌∷◌ c w) (String.◌∷◌ d s) = text_from w s

-- The text after the last occurrence of a word.
text_after_last : String → String → Option String
text_after_last word String.[] = none
text_after_last word (String.◌∷◌ c s) = elim (text_after_last word s) [
  | some rest ↦ some rest
  | none ↦ if has_prefix (String.◌∷◌ c s) word then some (text_from word (String.◌∷◌ c s)) else none
]

rune_among : String → Char → Bool
rune_among String.[] c = false
rune_among (String.◌∷◌ d s) c = eqb (code d) (code c) || rune_among s c

has_separator : String → Bool
unfolding rune_among
has_separator String.[] = false
has_separator (String.◌∷◌ c s) = rune_among ",.!?，。；;！？\n" c || has_separator s

-- The text after the last separator of clauses, or all of it. After a separator of several bytes the
-- code leaves its last bytes in front, which no marker contains.
last_clause : String → String
unfolding rune_among has_separator
last_clause String.[] = ""
last_clause (String.◌∷◌ c s) =
    let rest = last_clause s in
    if has_separator s then rest else if rune_among ",.!?，。；;！？\n" c then s else String.◌∷◌ c s

-- Every word of the first list before every word of the second.
compounds : String → List String → List String → List String
compounds between [] verbs = []
compounds between (w ∷ ws) verbs =
    append (map (λ v. w ++ between ++ v) verbs) (compounds between ws verbs)

abbrev verbs : List String
verbs = "看" ∷ "查" ∷ "检查" ∷ "读取" ∷ "访问" ∷ []

positive_markers : List String
unfolding compounds
positive_markers =
    " and read "
    ∷ " and inspect "
    ∷ " and check "
    ∷ " and access "
    ∷ " and do read "
    ∷ " and do inspect "
    ∷ " and do check "
    ∷ " and do access "
    ∷ " but read "
    ∷ " but inspect "
    ∷ " but check "
    ∷ " but access "
    ∷ " but instead read "
    ∷ " but instead inspect "
    ∷ " but instead check "
    ∷ " but instead access "
    ∷ ": read "
    ∷ ": inspect "
    ∷ ": check "
    ∷ ": access "
    ∷ compounds "" ("并" ∷ "再" ∷ "然后" ∷ "但" ∷ "但是" ∷ "只" ∷ "改为" ∷ "而是" ∷ "：" ∷ "： " ∷ []) verbs

negative_markers : List String
unfolding compounds
negative_markers = append ("不包括" ∷ "排除" ∷ "忽略" ∷ "exclude" ∷ "except" ∷ "skip" ∷ "ignore" ∷ []) (
    append (compounds "" ("不要" ∷ "禁止" ∷ "别" ∷ "不" ∷ []) verbs) (
      compounds " " ("do not" ∷ "don't" ∷ "must not" ∷ "never" ∷ [])
        ("read" ∷ "inspect" ∷ "check" ∷ "access" ∷ [])))

runes : String → ℕ
runes String.[] = 0
runes (String.◌∷◌ c s) = runes s + 1

-- The rest of the clause after the positive marker that ends last: the shortest rest.
after_markers : List String → String → String → String
after_markers [] prefix best = best
after_markers (m ∷ ms) prefix best = elim (text_after_last m prefix) [
  | none ↦ after_markers ms prefix best
  | some rest ↦ after_markers ms prefix (if ltb (runes rest) (runes best) then rest else best)
]

-- `readScopeMentionNegated`, of the text before a mention.
unfoldable pub mention_negated : String → Bool
unfolding last_clause after_markers positive_markers negative_markers text_after_last runes
    has_separator rune_among text_from compounds
mention_negated before =
    let clause = last_clause (to_lower before) in
    let rest = after_markers positive_markers clause clause in
    any (contains_text rest) negative_markers

trim_right_runes : String → String → String
trim_right_runes cut String.[] = ""
trim_right_runes cut (String.◌∷◌ c s) =
    let rest = trim_right_runes cut s in
    if rest == "" && rune_among cut c then "" else String.◌∷◌ c rest

-- A path without the white space around it and the punctuation after it.
unfoldable pub bare_path : String → String
unfolding trim_right_runes rune_among
bare_path value = trim_right_runes ".,!?，。；;！？：:)]}）】》>`" (trim_space value)

-- The loop of `normalizedUniquePaths`, with the paths that it has seen.
unfoldable pub unique_paths : List String → List String → List String
unique_paths seen [] = []
unique_paths seen (value ∷ values) =
    let path = clean (bare_path value) in
    let rest = unique_paths seen values in
    let rest' = unique_paths (path ∷ seen) values in
    if not (is_abs (bare_path value))
    then rest
    else if any (λ s. s == path) seen
    then rest
    else path ∷ rest'

-- `normalizedUniquePaths`
unfoldable pub normalized_unique_paths : List String → List String
normalized_unique_paths values = sort_by text_lt (unique_paths [] values)

abbrev pub lab_read_root : String
lab_read_root = "/var/lib/safeops/lab"

-- The first alias of the Lab in the request, with the text before it.
first_alias : List String → String → Option String
first_alias [] lower = none
first_alias (w ∷ ws) lower = elim (text_before w lower) [
  | some before ↦ some before
  | none ↦ first_alias ws lower
]

-- The mentions of paths, each with the text before it: that of the Lab first.
unfoldable pub path_mentions : (String → List (String × String)) → String → List (String × String)
unfolding first_alias text_before
path_mentions matches request =
    elim (first_alias ("safeops lab" ∷ "safeops 实验区" ∷ "safeops实验区" ∷ []) (to_lower request)) [
      | none ↦ matches request
      | some before ↦ (before, lab_read_root) ∷ matches request
    ]

-- The mentions that are negated, or those that are not.
unfoldable pub select_mentions : Bool → List (String × String) → List String
select_mentions negated [] = []
select_mentions negated ((before, path) ∷ mentions) =
    let rest = select_mentions negated mentions in
    if bool_eq (mention_negated before) negated then path ∷ rest else rest

-- `requestPathScopes`: the paths to read, and the excluded ones.
unfoldable pub request_path_scopes :
    (String → List (String × String)) → String → List String × List String
request_path_scopes matches request =
    let mentions = path_mentions matches request in
    (
      normalized_unique_paths (select_mentions false mentions),
      normalized_unique_paths (select_mentions true mentions),
    )

is_word_rune : ℕ → Bool
is_word_rune n = (leb b'a' n && leb n b'z') || (leb b'0' n && leb n b'9') || eqb n b'_'

starts_with_word : String → Bool
unfolding is_word_rune
starts_with_word String.[] = false
starts_with_word (String.◌∷◌ c s) = is_word_rune (code c)

-- `containsASCIIPhrase`, after a rune that is or is not one of a word.
phrase_after : Bool → String → String → Bool
unfolding is_word_rune starts_with_word
phrase_after in_word phrase String.[] = false
phrase_after in_word phrase (String.◌∷◌ c s) =
    (not in_word
      && has_prefix (String.◌∷◌ c s) phrase
      && not (starts_with_word (text_from phrase (String.◌∷◌ c s))))
    || phrase_after (is_word_rune (code c)) phrase s

unfoldable pub contains_phrase : String → String → Bool
unfolding phrase_after is_word_rune starts_with_word text_from
contains_phrase value phrase = phrase_after false phrase value

-- `isAmbiguousResourceFollowup`
unfoldable pub is_ambiguous_followup : String → Bool
is_ambiguous_followup request =
    let lower = to_lower (trim_space request) in
    any (contains_text lower) (
      "这些" ∷ "上述" ∷ "前面" ∷ "刚才" ∷ "其中" ∷ "第一个" ∷ "第二个" ∷ "第三个" ∷ "第四个" ∷ "第五个" ∷ "最后一个" ∷ "哪个"
      ∷ "哪些" ∷ "该文件" ∷ "这个文件" ∷ "该资源" ∷ "处理它" ∷ "检查它" ∷ "查看它" ∷ "它呢" ∷ "它的" ∷ [])
    || any (contains_phrase lower) (
        "these files" ∷ "those files" ∷ "selected file" ∷ "selected resource" ∷ "previous file"
        ∷ "this file" ∷ "that file" ∷ "this one" ∷ "that one" ∷ "which file" ∷ "which one"
        ∷ "which should" ∷ "them" ∷ "it" ∷ [])

-- `mentionsExplicitNonFileTopic`
unfoldable pub mentions_other_topic : String → Bool
mentions_other_topic request =
    let lower = to_lower request in
    any (contains_text lower) ("内存" ∷ "负载" ∷ "服务" ∷ "端口" ∷ "进程" ∷ "网络" ∷ [])
    || any (contains_phrase lower) (
        "cpu" ∷ "journal" ∷ "systemd" ∷ "service" ∷ "port" ∷ "process" ∷ "network" ∷ "memory"
        ∷ "load average" ∷ [])

unfoldable pub no_paths : List String → Bool
no_paths [] = true
no_paths (p ∷ ps) = false

-- The request refers to what was selected before.
unfoldable pub is_resumed : List String → String → Bool
unfolding no_paths
is_resumed asked request =
    no_paths asked && is_ambiguous_followup request && not (mentions_other_topic request)

unfoldable pub scope_of : List String → List String → String → Option ReadScope
unfolding no_paths
scope_of paths excluded source =
    if no_paths paths && no_paths excluded
    then none
    else some (record {
      resource_type = "file";
      authorized_paths = paths;
      excluded_paths = excluded;
      source = source;
    })

-- `deriveGeneralReadScope`; `none` is a nil scope.
unfoldable pub derive_read_scope :
    (String → List (String × String)) → String → List String → Option ReadScope
derive_read_scope matches request selected =
    let (asked, excluded) = request_path_scopes matches request in
    if is_resumed asked request
    then scope_of (normalized_unique_paths selected) excluded "session.selected_resources"
    else scope_of asked excluded "request"
