-- ===== src/Prelude/Maps.antt =====
-- A Go `map` keyed by texts, as an association list. Its order is never observed.
use mathlib.Core.Path.{◌≡◌, refl}
use mathlib.Core.Option.{Option, none, some}
use mathlib.Core.List.{List, [], ◌∷◌}
use native.Mathlib.Omega.{arith}
use Prim.Native.String.{String}
use safeops_agent.Prelude.Tests.{==-refl, ◌==◌, ==→eq, eq→==, if◌then◌else◌}

abbrev pub Dict {ℓ} : Type ℓ → Type ℓ
Dict V = List (String × V)

module _ {ℓ} {V : Type ℓ} where
  unfoldable pub lookup : String → Dict V → Option V
  lookup key [] = none
  lookup key ((k, v) ∷ others) = if k == key then some v else lookup key others

  unfoldable pub insert : String → V → Dict V → Dict V
  insert key new [] = (key, new) ∷ []
  insert key new ((k, old) ∷ others) =
      if k == key then (key, new) ∷ others else (k, old) ∷ insert key new others

  unfoldable pub erase : String → Dict V → Dict V
  erase k [] = []
  erase k ((j, w) ∷ m) = let rest = erase k m in if j == k then rest else (j, w) ∷ rest

  pub lookup-insert :
      (key other : String) (v : V) (m : Dict V)
      → lookup other (insert key v m) ≡ (if key == other then some v else lookup other m)
  unfolding lookup insert
  lookup-insert key other v [] = refl
  lookup-insert key other v ((k, w) ∷ m) =
      let ih = lookup-insert key other v m in
      ground (
        arith,
        ih,
        ==→eq key other,
        ==→eq k key,
        ==→eq k other,
        eq→== key other,
        eq→== k key,
        eq→== k other,
      )

  pub lookup-erase :
      (k j : String) (m : Dict V) → lookup j (erase k m) ≡ (if k == j then none else lookup j m)
  unfolding lookup erase
  lookup-erase k j [] = ground arith
  lookup-erase k j ((i, w) ∷ m) =
      ground (
        arith,
        ==→eq k j,
        ==→eq i k,
        ==→eq i j,
        eq→== k j,
        eq→== i k,
        eq→== i j,
        lookup-erase k j m,
      )

  pub lookup-insert_self : (k : String) (v : V) (m : Dict V) → lookup k (insert k v m) ≡ some v
  lookup-insert_self k v m = rw (lookup-insert, ==-refl k)

  pub lookup-erase_self : (k : String) (m : Dict V) → lookup k (erase k m) ≡ none
  lookup-erase_self k m = rw (lookup-erase, ==-refl k)
