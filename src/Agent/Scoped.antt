-- ===== src/Agent/Scoped.antt =====
-- internal/agent/general_scope.go: what the check of a tool call shows.
use safeops_agent.Agent.Scope.{
  Decision, ReadScope, ReadScopeViolation, append_guard_feedback, argument, argument_violation,
  decision_tool, exclusion_only, is_tool_call, path_violation, path_within_scope, reaches, text_of,
  tool_is_scoped, tool_traverses, validate_read_scope, violation,
}
use safeops_agent.Json.{Json, arr, bool, null, num, obj, str}
use safeops_agent.Prelude.{
  length-append, ◌+◌, ltb, if◌then◌else◌, keep_last-suffix, ==→eq, Bool, Bool-cases, List, Option,
  Option-cases, String, [], any, ap, arith, clean, eq→==, false, inl, inr, is_abs, length, none,
  not, refl, some, subst, sym, true, within_trans, ◌&&◌, ◌∙◌, ◌∷◌, ◌≡◌, ◌⊎◌,
}
use safeops_agent.Task.{RuntimeGuardFeedback, RuntimeCheckpoint}
use mathlib.Core.List.{◌++◌, Memᴰ}

-- A tool call that is checked by its path: it may read there, and reaches nothing excluded.
pub record MayRead (scope : ReadScope) (d : Decision) : Type 0 where
  pub path : String
  pub asked : argument "path" d.arguments ≡ some (str path)
  pub absolute : is_abs path ≡ true
  pub not_excluded :
      (excluded : String)
      → Memᴰ excluded scope.excluded_paths
      → path_within_scope excluded (clean path) ≡ false
  pub not_traversed :
      (excluded : String)
      → Memᴰ excluded scope.excluded_paths
      → tool_traverses (decision_tool d) ≡ true
      → path_within_scope (clean path) excluded ≡ false
  pub inside :
      (exclusion_only scope ≡ true)
      ⊎ ((file : String)
          → path_within_scope (clean path) file ≡ true
          → (authorized : String) × Memᴰ authorized scope.authorized_paths
            × (path_within_scope authorized file ≡ true))

-- No element of a list passes a test that none passes.
any-none :
    {A : Type 0} (p : A → Bool) (xs : List A) (x : A) → any p xs ≡ false → Memᴰ x xs → p x ≡ false
any-none p [] x h m = elim m [ ]
any-none p (y ∷ ys) x h (Memᴰ.head e) = subst (λ z. p z ≡ false) (sym e) (ground (arith, h))
any-none p (y ∷ ys) x h (Memᴰ.tail m) = any-none p ys x (ground (arith, h)) m

-- Some element passes a test that one passes.
any-some :
    {A : Type 0} (p : A → Bool) (xs : List A) → any p xs ≡ true → (x : A) × Memᴰ x xs × (p x ≡ true)
any-some p [] h = absurd (ground (arith, h))
any-some p (y ∷ ys) h = elim (Bool-cases (p y)) [
  | inl hit ↦ (y, Memᴰ.head refl, hit)
  | inr miss ↦ let (x, m, at) = any-some p ys (ground (arith, h, miss)) in (x, Memᴰ.tail m, at)
]

path_within_scope_trans :
    (a b c : String)
    → path_within_scope a b ≡ true
    → path_within_scope b c ≡ true
    → path_within_scope a c ≡ true
unfolding path_within_scope
path_within_scope_trans a b c h k = ground (
  arith,
  h,
  k,
  ==→eq (clean a) (clean b),
  ==→eq (clean b) (clean c),
  eq→== (clean a) (clean c),
  within_trans (clean a) (clean b) (clean c),
)

no_violation : {v : ReadScopeViolation} → ◌≡◌ {A = Option ReadScopeViolation} (some v) none → ⊥
no_violation h = cc

-- A path that is let through.
path_violation-none :
    (scope : ReadScope) (tool path : String)
    → path_violation scope tool path ≡ none
    → (any (reaches tool path) scope.excluded_paths ≡ false)
      × ((exclusion_only scope ≡ true)
          ⊎ (any (λ authorized. path_within_scope authorized path) scope.authorized_paths ≡ true))
unfolding path_violation
path_violation-none scope tool path h =
    elim (Bool-cases (any (reaches tool path) scope.excluded_paths)) [
      | inl bad ↦ absurd (ground (arith, h, bad))
      | inr fine ↦ (fine, ground (arith, h, fine))
    ]

argument_violation-none :
    (scope : ReadScope) (tool : String) (value : Json)
    → argument_violation scope tool value ≡ none
    → (path : String) × (value ≡ str path)
      × (is_abs path ≡ true)
      × (path_violation scope tool (clean path) ≡ none)
unfolding argument_violation text_of
argument_violation-none scope tool (str path) h = (path, refl, ground (arith, h), ground (arith, h))
argument_violation-none scope tool null h = absurd (no_violation h)
argument_violation-none scope tool (bool b) h = absurd (no_violation h)
argument_violation-none scope tool (num n) h = absurd (no_violation h)
argument_violation-none scope tool (arr xs) h = absurd (no_violation h)
argument_violation-none scope tool (obj fs) h = absurd (no_violation h)

reaches-none :
    (tool path excluded : String)
    → reaches tool path excluded ≡ false
    → (path_within_scope excluded path ≡ false)
      × (tool_traverses tool ≡ true → path_within_scope path excluded ≡ false)
unfolding reaches
reaches-none tool path excluded h = (ground (arith, h), λ t. ground (arith, h, t))

argument-MayRead :
    (scope : ReadScope) (d : Decision) (value : Json)
    → argument "path" d.arguments ≡ some value
    → argument_violation scope (decision_tool d) value ≡ none
    → MayRead scope d
argument-MayRead scope d value found fine =
    let (path, is, absolute, calm) = argument_violation-none scope (decision_tool d) value fine in
    let (clear, either) = path_violation-none scope (decision_tool d) (clean path) calm in
    record {
      path = path;
      asked = found ∙ ap some is;
      absolute = absolute;
      not_excluded = λ excluded m.
          (reaches-none _ _ excluded (any-none _ scope.excluded_paths excluded clear m)).0;
      not_traversed = λ excluded m walks.
          (reaches-none _ _ excluded (any-none _ scope.excluded_paths excluded clear m)).1 walks;
      inside = elim either [
        | inl only ↦ inl only
        | inr some_one ↦
            let (authorized, m, at) = any-some _ scope.authorized_paths some_one in
            inr (λ file below.
              (authorized, m, path_within_scope_trans authorized (clean path) file at below))
      ];
    }

-- The call of a tool that reads a path is checked by its argument.
scoped_call :
    (scope : ReadScope) (d : Decision)
    → is_tool_call d.kind ≡ true
    → tool_is_scoped (decision_tool d) ≡ true
    → validate_read_scope (some scope) d ≡ none
    → (value : Json) × (argument "path" d.arguments ≡ some value)
      × (argument_violation scope (decision_tool d) value ≡ none)
scoped_call scope d tool scoped h =
    let pass : (exclusion_only scope && not (tool_is_scoped (decision_tool d))) ≡ false =
      ground (arith, scoped) in
    elim (Option-cases (argument "path" d.arguments)) [
      | inl missing ↦
          let stop : validate_read_scope (some scope) d
              ≡ some (
                  violation "REQUEST_READ_SCOPE_PATH_REQUIRED" "文件范围任务只能选择携带受权 path 的只读工具"
                    (decision_tool d) "") =
            unfold validate_read_scope in
            rw (tool, validate_read_scope) (rw pass (rw scoped (rw missing refl))) in
          absurd (no_violation (sym stop ∙ h))
      | inr (value, found) ↦
          let step : validate_read_scope (some scope) d
              ≡ argument_violation scope (decision_tool d) value =
            unfold validate_read_scope in
            rw (tool, validate_read_scope) (rw pass (rw scoped (rw found refl))) in
          (value, found, sym step ∙ h)
    ]

-- Where a scope is in force, a tool call that its check lets through is of a tool that reads no path,
-- and then the scope only excludes; or it names an absolute path that lies in no excluded path and,
-- where the tool walks through directories, in which no excluded path lies. Unless the scope only
-- excludes, whatever lies within the path lies within an authorised one.
pub validate_read_scope-MayRead :
    (scope : ReadScope) (d : Decision)
    → is_tool_call d.kind ≡ true
    → validate_read_scope (some scope) d ≡ none
    → ((exclusion_only scope ≡ true) × (tool_is_scoped (decision_tool d) ≡ false)) ⊎ MayRead scope d
validate_read_scope-MayRead scope d tool h = elim (Bool-cases (tool_is_scoped (decision_tool d))) [
  | inl scoped ↦
      let (value, found, fine) = scoped_call scope d tool scoped h in
      inr (argument-MayRead scope d value found fine)
  | inr other ↦ elim (Bool-cases (exclusion_only scope)) [
    | inl only ↦ inl (only, other)
    | inr listed ↦
        let stop : validate_read_scope (some scope) d
            ≡ some (
                violation "REQUEST_READ_SCOPE_TOOL_MISMATCH" "文件范围任务只能选择文件元数据、文件系统容量或磁盘压力的路径受限工具"
                  (decision_tool d) "") =
          unfold validate_read_scope in rw (tool, validate_read_scope) (rw (listed, other) refl) in
        absurd (no_violation (sym stop ∙ h))
  ]
]

-- What is kept of a list of feedbacks and one more: the last ones, in their order, with a new one
-- that says what the violation says at the end, all where they are at most four and four otherwise.
pub record IsAppended (v : ReadScopeViolation) (old kept : List RuntimeGuardFeedback) : Type 0 where
  pub newest : RuntimeGuardFeedback
  pub dropped : List RuntimeGuardFeedback
  pub rest : dropped ++ kept ≡ old ++ newest ∷ []
  pub count : length kept ≡ (if ltb 4 (length old + 1) then 4 else length old + 1)
  pub says : (newest.code ≡ v.code) × (newest.summary ≡ v.summary)
  pub about : (newest.tool ≡ v.tool) × (newest.attempted_path ≡ v.attempted_path)

-- After a feedback is appended, the feedbacks are the last four of the old ones and the new one, or
-- all of them where they are fewer, in their order; the new one is last and carries the code, the
-- summary, the tool and the path of the violation.
pub append_guard_feedback-IsAppended :
    (checkpoint : RuntimeCheckpoint) (scope : Option ReadScope) (v : ReadScopeViolation)
    → IsAppended v checkpoint.guard_feedback
        (append_guard_feedback checkpoint scope v).guard_feedback
unfolding append_guard_feedback
append_guard_feedback-IsAppended checkpoint scope v =
    let old = checkpoint.guard_feedback in
    let (before, whole, size) = keep_last-suffix 4 (old ++ _ ∷ []) in
    record {
      newest = _;
      dropped = before;
      rest = whole;
      count = rw length-append at size;
      says = (refl, refl);
      about = (refl, refl);
    }
