-- ===== src/Prelude/Sorting.antt =====
-- Go's `sort`: by insertion here, the order of the result is the same.
use Prim.Native.Nat.{Ordering}
use Prim.Native.String.{String, compare}
use mathlib.Core.Bool.{Bool, true, false}
use mathlib.Core.List.{List, [], ◌∷◌, Memᴰ}
use mathlib.Core.Path.{◌≡◌}
use mathlib.Core.Logic.{◌⊎◌, inl, inr}
use safeops_agent.Prelude.Tests.{Bool-cases, if◌then◌else◌}

-- `<` of texts, by code points; Go compares bytes, which is the same order for UTF-8.
unfoldable pub text_lt : String → String → Bool
text_lt a b = elim (compare a b) [ Ordering.lt ↦ true | _ ↦ false ]

insert_by {ℓ} : {A : Type ℓ} → (A → A → Bool) → A → List A → List A
insert_by before x [] = x ∷ []
insert_by before x (y ∷ ys) =
    let rest = insert_by before x ys in if before y x then y ∷ rest else x ∷ y ∷ ys

unfoldable pub sort_by {ℓ} : {A : Type ℓ} → (A → A → Bool) → List A → List A
unfolding insert_by
sort_by before [] = []
sort_by before (x ∷ xs) = insert_by before x (sort_by before xs)

insert_by-mem {ℓ} :
    {A : Type ℓ} (before : A → A → Bool) (x c : A) (ys : List A)
    → Memᴰ c (insert_by before x ys)
    → (c ≡ x) ⊎ Memᴰ c ys
unfolding insert_by
insert_by-mem before x c [] (Memᴰ.head e) = inl e
insert_by-mem before x c [] (Memᴰ.tail m) = elim m [ ]
insert_by-mem before x c (y ∷ ys) m = elim (Bool-cases (before y x)) [
  | inl first ↦ elim (rw first at m) [
    | Memᴰ.head e ↦ inr (Memᴰ.head e)
    | Memᴰ.tail rest ↦ elim (insert_by-mem before x c ys rest) [
      | inl e ↦ inl e
      | inr there ↦ inr (Memᴰ.tail there)
    ]
  ]
  | inr last ↦ elim (rw last at m) [ Memᴰ.head e ↦ inl e | Memᴰ.tail rest ↦ inr rest ]
]

-- Sorting adds nothing.
pub sort_by-mem {ℓ} :
    {A : Type ℓ} (before : A → A → Bool) (c : A) (xs : List A)
    → Memᴰ c (sort_by before xs)
    → Memᴰ c xs
unfolding sort_by
sort_by-mem before c [] m = m
sort_by-mem before c (x ∷ xs) m = elim (insert_by-mem before x c (sort_by before xs) m) [
  | inl e ↦ Memᴰ.head e
  | inr rest ↦ Memᴰ.tail (sort_by-mem before c xs rest)
]
