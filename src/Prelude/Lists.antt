-- ===== src/Prelude/Lists.antt =====
-- Lists measured by native numbers, under the library's names, and predicates by recursion.
use Prim.Native.Nat.{ℕ, zero, suc, ◌+◌, ◌-◌, ◌≤◌}
use mathlib.Core.Logic.{inl, inr}
use safeops_agent.Prelude.Tests.{Bool-cases, ltb, if◌then◌else◌}
use mathlib.Core.Path.{refl, ap, ◌≡◌}
use mathlib.Core.Bool.{Bool, false, ◌||◌}
use mathlib.Core.Option.{Option, none, some}
use mathlib.Core.List.{List, [], ◌∷◌, ◌++◌}
use native.Mathlib.Omega.{arith}

module _ {ℓ} {A : Type ℓ} where
  abbrev pub length : List A → ℕ
  length [] = 0
  length (x ∷ xs) = suc (length xs)

  abbrev pub get_elem? : List A → ℕ → Option A
  get_elem? [] i = none
  get_elem? (x ∷ xs) zero = some x
  get_elem? (x ∷ xs) (suc i) = get_elem? xs i

  abbrev pub drop : ℕ → List A → List A
  drop zero xs = xs
  drop (suc n) [] = []
  drop (suc n) (x ∷ xs) = drop n xs

  pub length-append : (xs ys : List A) → length (xs ++ ys) ≡ length xs + length ys
  length-append [] ys = omega arith
  length-append (x ∷ xs) ys = omega (arith, length-append xs ys)

-- The first elements of a list, at most this many.
unfoldable pub take {ℓ} : {A : Type ℓ} → ℕ → List A → List A
take zero xs = []
take (suc n) [] = []
take (suc n) (x ∷ xs) = x ∷ take n xs

-- Does some element pass the test?
abbrev pub any {ℓ} : {A : Type ℓ} → (A → Bool) → List A → Bool
any p [] = false
any p (x ∷ xs) = p x || any p xs

abbrev pub All {ℓ κ} : {A : Type ℓ} → (A → Type κ) → List A → Type κ
All P [] = Unit
All P (x ∷ xs) = P x × All P xs

-- The last elements of a list, at most this many.
unfoldable pub keep_last {ℓ} : {A : Type ℓ} → ℕ → List A → List A
keep_last n xs = if ltb n (length xs) then drop (length xs - n) xs else xs

length-drop {ℓ} :
    {A : Type ℓ} (n : ℕ) (xs : List A) → n ≤ length xs → length (drop n xs) + n ≡ length xs
length-drop zero xs h = omega arith
length-drop (suc n) [] h = absurd (omega (arith, h))
length-drop (suc n) (x ∷ xs) h = omega (arith, length-drop n xs (omega (arith, h)))

take-drop {ℓ} : {A : Type ℓ} (n : ℕ) (xs : List A) → take n xs ++ drop n xs ≡ xs
unfolding take
take-drop zero xs = refl
take-drop (suc n) [] = refl
take-drop (suc n) (x ∷ xs) = ap (λ ys. x ∷ ys) (take-drop n xs)

-- What is kept is the end of the list, as much of it as the bound lets in.
pub keep_last-suffix {ℓ} :
    {A : Type ℓ} (n : ℕ) (xs : List A)
    → (before : List A) × (before ++ keep_last n xs ≡ xs)
      × (length (keep_last n xs) ≡ (if ltb n (length xs) then n else length xs))
unfolding keep_last
keep_last-suffix n xs = elim (Bool-cases (ltb n (length xs))) [
  | inl more ↦
      let e = length-drop (length xs - n) xs (omega arith) in
      rw (more, keep_last)
        (take (length xs - n) xs, take-drop (length xs - n) xs, ground (arith, e, more))
  | inr less ↦ rw (less, keep_last) ([], refl, refl)
]

pub length-keep_last {ℓ} : {A : Type ℓ} (n : ℕ) (xs : List A) → length (keep_last n xs) ≤ n
unfolding keep_last
length-keep_last n xs = elim (Bool-cases (ltb n (length xs))) [
  | inl more ↦
      let e = length-drop (length xs - n) xs (omega arith) in
      rw (more, keep_last) (ground (arith, e, more))
  | inr less ↦ rw (less, keep_last) (ground (arith, less))
]
