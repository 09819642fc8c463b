-- ===== src/Registry/Health.antt =====
-- internal/registry/health.go: the dependencies of a server, and the histories.
use safeops_agent.Executor.Validator.{check}
use safeops_agent.Prelude.{
  Bool, Bool-cases, Error, List, Option, Result, String, [], clean, eqb, err, false, has_prefix,
  if◌then◌else◌, inl, inr, is_abs, keep_last, leb, length, length-keep_last, none, not, ok, refl,
  some, sort_by, text_lt, trim_space, true, ℕ, ◌&&◌, ◌-◌, ◌==◌, ◌||◌, ◌∙◌, ◌∷◌, ◌≡◌, ◌≤◌,
}
use safeops_agent.Registry.{DependencyState}
use Prim.Native.String.{◌++◌}
use mathlib.Core.List.{◌++◌ as append}
use Prim.Native.Char.{code}

-- What `os.Stat` says of a file.
pub record FileStat : Type 0 where
  pub mode : String
  pub is_dir : Bool
  pub size : ℕ
  pub modified : ℕ

-- `os.Stat`, `exec.LookPath`, `filepath.Abs`, and the patterns that blank out secrets.
pub record Host : Type 0 where
  pub stat : String → Result FileStat
  pub look_path : String → Result String
  pub absolute : String → Result String
  pub redact : String → String

newlines_as_spaces : String → String
newlines_as_spaces String.[] = ""
newlines_as_spaces (String.◌∷◌ c s) =
    if eqb (code c) 10 || eqb (code c) 13
    then String.◌∷◌ " " (newlines_as_spaces s)
    else String.◌∷◌ c (newlines_as_spaces s)

-- The first runes of a text, at most this many, and whether there are more.
first_runes : ℕ → String → String × Bool
first_runes n String.[] = ("", false)
first_runes n (String.◌∷◌ c s) =
    let (rest, more) = first_runes (n - 1) s in
    if eqb n 0 then ("", true) else (String.◌∷◌ c rest, more)

-- `boundedRegistryDetail`
unfoldable pub bounded_detail : Host → String → String
unfolding newlines_as_spaces first_runes
bounded_detail machine value =
    let (start, more) = first_runes 512 (machine.redact (trim_space (newlines_as_spaces value))) in
    if more then start ++ "..." else start

is_command_rune : ℕ → Bool
is_command_rune n =
    (leb b'a' n && leb n b'z')
    || (leb b'A' n && leb n b'Z')
    || (leb b'0' n && leb n b'9')
    || eqb n b'.'
    || eqb n b'_'
    || eqb n b'+'
    || eqb n b'-'

all_command_runes : String → Bool
unfolding is_command_rune
all_command_runes String.[] = true
all_command_runes (String.◌∷◌ c s) = is_command_rune (code c) && all_command_runes s

has_slash : String → Bool
has_slash String.[] = false
has_slash (String.◌∷◌ c s) = eqb (code c) b'/' || has_slash s

-- `validDependencyCommand`
unfoldable pub valid_dependency_command : String → Bool
unfolding all_command_runes has_slash
valid_dependency_command value =
    not (value == "" || has_prefix value "-" || has_slash value) && all_command_runes value

-- An unavailable dependency, before it is looked at.
blank_check : String → ℕ → DependencyState
blank_check name now = record {
  name = name;
  kind = "";
  available = false;
  resolved = "";
  mode = "";
  is_dir = false;
  size_bytes = 0;
  modified_at = 0;
  error = "";
  checked_at = now;
}

-- `setDependencyMetadata`
unfoldable pub set_metadata : String → FileStat → DependencyState → DependencyState
set_metadata resolved info check = record check {
  available = true;
  resolved = resolved;
  mode = info.mode;
  is_dir = info.is_dir;
  size_bytes = info.size;
  modified_at = info.modified;
}

-- `os.Stat` of a path, whose outcome goes into the check.
stat_into : Host → String → String → DependencyState → DependencyState
stat_into machine path resolved check = elim (machine.stat path) [
  | err e ↦ record check { error = bounded_detail machine e }
  | ok info ↦ set_metadata resolved info check
]

-- One round of the loop of `inspectDependencies`.
unfoldable pub inspect_dependency : Host → ℕ → String → DependencyState
unfolding blank_check stat_into
inspect_dependency machine now raw =
    let name = trim_space raw in
    let check = blank_check name now in
    let command = record check { kind = "command" } in
    if is_abs name
    then stat_into machine (clean name) (clean name) (record check { kind = "path" })
    else if valid_dependency_command name
    then elim (machine.look_path name) [
      | err e ↦ record command { error = bounded_detail machine e }
      | ok found ↦ elim (machine.absolute found) [
        | err e ↦ record command { error = bounded_detail machine e }
        | ok absolute ↦ stat_into machine absolute (clean absolute) command
      ]
    ]
    else record check {
      kind = "invalid";
      error = "dependency must be an absolute path or a bare command name";
    }

-- `inspectDependencies`: the checks, and whether all are available.
unfoldable pub inspect_dependencies : Host → List String → ℕ → List DependencyState × Bool
inspect_dependencies machine [] now = ([], true)
inspect_dependencies machine (raw ∷ values) now =
    let (checks, fine) = inspect_dependencies machine values now in
    let check = inspect_dependency machine now raw in (check ∷ checks, check.available && fine)

missing_names : List DependencyState → List String
missing_names [] = []
missing_names (c ∷ cs) =
    let rest = missing_names cs in
    if c.available then rest else (if trim_space c.name == "" then "<empty>" else c.name) ∷ rest

join_names : List String → String
join_names [] = ""
join_names (s ∷ []) = s
join_names (s ∷ t ∷ ss) = s ++ ", " ++ join_names (t ∷ ss)

-- The rest of `dependencyFailure`.
failure_of : List String → Option Error
unfolding join_names
failure_of [] = none
failure_of (s ∷ ss) =
    some ("MCP dependencies unavailable: " ++ join_names (sort_by text_lt (s ∷ ss)))

-- `dependencyFailure`; `none` is a nil error.
unfoldable pub dependency_failure : List DependencyState → Option Error
unfolding missing_names failure_of
dependency_failure checks = failure_of (missing_names checks)

-- `appendBounded`, with its limit.
unfoldable pub append_bounded {ℓ} : {A : Type ℓ} → List A → A → List A
append_bounded values value = keep_last 32 (append values (value ∷ []))

pub append_bounded-length {ℓ} :
    {A : Type ℓ} (values : List A) (value : A) → length (append_bounded values value) ≤ 32
unfolding append_bounded
append_bounded-length values value = length-keep_last 32 _

abbrev pub is_nil : Option Error → Bool
is_nil none = true
is_nil (some e) = false

no_names : List String → Bool
no_names [] = true
no_names (s ∷ ss) = false

is_nil-failure_of : (names : List String) → is_nil (failure_of names) ≡ no_names names
unfolding failure_of no_names
is_nil-failure_of [] = refl
is_nil-failure_of (s ∷ ss) = refl

no_names-inspect :
    (machine : Host) (values : List String) (now : ℕ)
    → no_names (missing_names (inspect_dependencies machine values now).0)
      ≡ (inspect_dependencies machine values now).1
unfolding missing_names no_names inspect_dependencies
no_names-inspect machine [] now = refl
no_names-inspect machine (raw ∷ values) now =
    let ih = no_names-inspect machine values now in
    elim (Bool-cases (inspect_dependency machine now raw).available) [
      | inl found ↦ rw found ih
      | inr gone ↦ rw gone refl
    ]

-- The checks report that all dependencies are there just where their failure is nil.
pub dependency_failure-inspect_dependencies :
    (machine : Host) (values : List String) (now : ℕ)
    → is_nil (dependency_failure (inspect_dependencies machine values now).0)
      ≡ (inspect_dependencies machine values now).1
unfolding dependency_failure
dependency_failure-inspect_dependencies machine values now =
    is_nil-failure_of (missing_names (inspect_dependencies machine values now).0)
    ∙ no_names-inspect machine values now
