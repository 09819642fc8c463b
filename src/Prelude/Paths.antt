-- ===== src/Prelude/Paths.antt =====
-- Go's `path/filepath` on a Unix system, on native texts.
use Prim.Native.Char.{Char, code}
use Prim.Native.String.{String, ◌++◌}
use mathlib.Core.Path.{◌≡◌, refl}
use mathlib.Core.Bool.{Bool, true, false, not, ◌&&◌, ◌||◌}
use mathlib.Core.List.{List, [], ◌∷◌, reverse}
use mathlib.Core.Option.{Option, none, some}
use safeops_agent.Prelude.Tests.{bool_eq, eqb, ◌==◌, if◌then◌else◌}
use safeops_agent.Prelude.Text.{has_prefix}

push_rune : Char → List String → List String
push_rune c [] = String.◌∷◌ c "" ∷ []
push_rune c (w ∷ ws) = String.◌∷◌ c w ∷ ws

split_path : String → List String
split_path String.[] = "" ∷ []
split_path (String.◌∷◌ c s) =
    let rest = split_path s in if eqb (code c) 47 then "" ∷ rest else push_rune c rest

-- `..` takes away the last kept element; at the root it is dropped.
step_up : Bool → List String → List String
step_up true [] = []
step_up false [] = ".." ∷ []
step_up rooted (w ∷ ws) = if w == ".." then ".." ∷ w ∷ ws else ws

-- The elements kept so far, last first.
clean_elements : Bool → List String → List String → List String
clean_elements rooted [] kept = kept
clean_elements rooted (w ∷ ws) kept =
    clean_elements rooted ws
      (if w == "" || w == "." then kept else if w == ".." then step_up rooted kept else w ∷ kept)

join_reversed : List String → String → String
join_reversed [] acc = acc
join_reversed (w ∷ ws) acc = join_reversed ws (if acc == "" then w else w ++ "/" ++ acc)

is_rooted : String → Bool
is_rooted s = has_prefix s "/"

-- `filepath.Clean` on a Unix system.
unfoldable pub clean : String → String
unfolding has_prefix push_rune split_path step_up clean_elements join_reversed is_rooted ◌==◌
clean s =
    let body = join_reversed (clean_elements (is_rooted s) (split_path s) []) "" in
    if is_rooted s then "/" ++ body else if body == "" then "." else body

-- The elements of `filepath.Clean` of a path, the first one first.
unfoldable pub path_elements : String → List String
unfolding has_prefix split_path step_up clean_elements push_rune is_rooted ◌==◌
path_elements s = reverse (clean_elements (is_rooted s) (split_path s) [])

-- `filepath.IsAbs`
unfoldable pub is_abs : String → Bool
unfolding has_prefix is_rooted
is_abs s = is_rooted s

unfoldable pub strip_elements : List String → List String → Option (List String)
strip_elements [] path = some path
strip_elements (r ∷ rs) [] = none
strip_elements (r ∷ rs) (p ∷ ps) = let rest = strip_elements rs ps in if r == p then rest else none

unfoldable pub starts_up : List String → Bool
unfolding ◌==◌
starts_up [] = false
starts_up (p ∷ ps) = p == ".."

unfoldable pub elements_within : List String → List String → Bool
unfolding strip_elements starts_up
elements_within root path = elim (strip_elements root path) [
  | none ↦ false
  | some rest ↦ not (starts_up rest)
]

-- `filepath.Rel(root, path)` succeeds with a path that is not `..` and does not begin with `../`.
-- It fails where one path is absolute and the other is not; it goes up, or fails, where an element
-- of the root is not one of the path.
unfoldable pub within : String → String → Bool
within root path =
    bool_eq (is_abs root) (is_abs path) && elements_within (path_elements root) (path_elements path)

clean_samples :
    (clean "/etc/../etc//ssh/." ≡ "/etc/ssh")
    × (clean "a/../../b" ≡ "../b")
    × (clean "" ≡ ".")
    × (clean "/.." ≡ "/")
unfolding clean
clean_samples = (refl, refl, refl, refl)

within_samples :
    (within "/lab" "/lab/a/../b" ≡ true)
    × (within "/lab" "/labs/a" ≡ false)
    × (within "/lab/x" "/lab/x/../y" ≡ false)
    × (within "/" "/etc" ≡ true)
    × (within "." "../a" ≡ false)
unfolding within path_elements is_abs elements_within strip_elements starts_up ◌==◌
within_samples = (refl, refl, refl, refl, refl)
