-- ===== src/Prelude/Inside.antt =====
-- What lies within what, for the paths of `Paths`.
use Prim.Native.String.{String}
use mathlib.Core.Path.{◌≡◌, refl, ap, ◌∙◌}
use mathlib.Core.Logic.{inl, inr}
use mathlib.Core.Bool.{true, false}
use mathlib.Core.List.{List, [], ◌∷◌, ◌++◌, append_assoc}
use mathlib.Core.Option.{some}
use native.Mathlib.Omega.{arith}
use safeops_agent.Prelude.Tests.{==-refl, ==→eq, Option-cases}
use safeops_agent.Prelude.Paths.{path_elements, strip_elements, starts_up, elements_within, within}

strip_elements_refl : (r : List String) → strip_elements r r ≡ some []
unfolding strip_elements
strip_elements_refl [] = refl
strip_elements_refl (p ∷ ps) = rw (==-refl p) (strip_elements_refl ps)

pub within_refl : (s : String) → within s s ≡ true
unfolding within elements_within starts_up
within_refl s = ground (arith, strip_elements_refl (path_elements s))

strip_elements-append : (p q y : List String) → strip_elements p q ≡ some y → q ≡ p ++ y
unfolding strip_elements
strip_elements-append [] q y h = cc
strip_elements-append (a ∷ p) [] y h = cc
strip_elements-append (a ∷ p) (b ∷ q) y h = ground (arith, ==→eq a b, strip_elements-append p q y)

append-strip_elements : (p y : List String) → strip_elements p (p ++ y) ≡ some y
unfolding strip_elements
append-strip_elements [] y = refl
append-strip_elements (a ∷ p) y = rw (==-refl a) (append-strip_elements p y)

starts_up-append :
    (x y : List String) → starts_up x ≡ false → starts_up y ≡ false → starts_up (x ++ y) ≡ false
unfolding starts_up
starts_up-append [] y h k = k
starts_up-append (a ∷ x) y h k = h

elements_within_trans :
    (r p q : List String)
    → elements_within r p ≡ true
    → elements_within p q ≡ true
    → elements_within r q ≡ true
elements_within_trans r p q h k = elim (Option-cases (strip_elements r p)) [
  | inl outside ↦ unfold elements_within in ground arith
  | inr (x, inside) ↦ elim (Option-cases (strip_elements p q)) [
    | inl outside ↦ unfold elements_within in ground arith
    | inr (y, deeper) ↦
        let whole : q ≡ r ++ (x ++ y) =
          strip_elements-append p q y deeper
          ∙ ap (λ z. z ++ y) (strip_elements-append r p x inside)
          ∙ append_assoc r x y in
        let found : strip_elements r q ≡ some (x ++ y) =
          ap (strip_elements r) whole ∙ append-strip_elements r (x ++ y) in
        unfold elements_within in ground (arith, starts_up-append x y)
  ]
]

-- What lies within a directory within another lies within that one.
pub within_trans :
    (root mid path : String)
    → within root mid ≡ true
    → within mid path ≡ true
    → within root path ≡ true
unfolding within
within_trans root mid path h k =
    ground
      (arith, elements_within_trans (path_elements root) (path_elements mid) (path_elements path))
