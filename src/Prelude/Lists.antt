-- ===== src/Prelude/Lists.antt =====
-- Lists over the native numbers, and predicates and tests by recursion on a list.
use Prim.Native.Nat.{ℕ, suc, ◌+◌}
use mathlib.Core.Path.{◌≡◌, refl, sym, ap, ◌∙◌}
use mathlib.Core.Bool.{Bool, true, false, ◌||◌}
use mathlib.Core.Option.{Option, none, some}
use mathlib.Core.List.{List, [], ◌∷◌, ◌++◌, map}
use mathlib.Core.Logic.{◌⊎◌, inl, inr}
use native.Mathlib.Omega.{arith}
use depsera.Prelude.Tests.{if◌then◌else◌}

-- The type with no value, at any level.
pub data Never {ℓ} : Type ℓ where

module _ {ℓ} {A : Type ℓ} where
  abbrev pub length : List A → ℕ
  length [] = 0
  length (x ∷ xs) = suc (length xs)

  pub length-append : (xs ys : List A) → length (xs ++ ys) ≡ length xs + length ys
  length-append [] ys = omega arith
  length-append (x ∷ xs) ys = omega (arith, length-append xs ys)

  -- `xs.filter(p)`
  abbrev pub keep : (A → Bool) → List A → List A
  keep p [] = []
  keep p (x ∷ xs) = let rest = keep p xs in if p x then x ∷ rest else rest

  -- `xs.some(p)`
  abbrev pub any : (A → Bool) → List A → Bool
  any p [] = false
  any p (x ∷ xs) = p x || any p xs

  -- `xs.find(p)`
  abbrev pub find : (A → Bool) → List A → Option A
  find p [] = none
  find p (x ∷ xs) = let rest = find p xs in if p x then some x else rest

-- Membership with its position, taken apart by cases.
abbrev pub In {ℓ} : {A : Type ℓ} → A → List A → Type ℓ
In a [] = Never
In a (x ∷ xs) = (x ≡ a) ⊎ In a xs

module _ {ℓ κ} {A : Type ℓ} (P : A → Type κ) where
  abbrev pub All : List A → Type κ
  All [] = Unit
  All (x ∷ xs) = P x × All xs

  pub All-append : (xs ys : List A) → All xs → All ys → All (xs ++ ys)
  All-append [] ys hx hy = hy
  All-append (x ∷ xs) ys hx hy = (hx.0, All-append xs ys hx.1 hy)

-- Membership in a list to which a test may have added an item, and in a filtered list.
module _ {ℓ} {A : Type ℓ} (a : A) where
  pub In-if :
      (b : Bool) (x : A) (xs : List A)
      → In a (if b then x ∷ xs else xs)
      → ((b ≡ true) × (x ≡ a)) ⊎ In a xs
  In-if true x xs (inl e) = inl (refl, e)
  In-if true x xs (inr i) = inr i
  In-if false x xs i = inr i

  pub In-keep : (p : A → Bool) (xs : List A) → In a (keep p xs) → In a xs × (p a ≡ true)
  In-keep p [] i = elim i [ ]
  In-keep p (x ∷ xs) i = elim (In-if (p x) x (keep p xs) i) [
    | inl (t, e) ↦ (inl e, ap p (sym e) ∙ t)
    | inr j ↦ (inr (In-keep p xs j).0, (In-keep p xs j).1)
  ]

  pub In-append : (xs ys : List A) → In a (xs ++ ys) → In a xs ⊎ In a ys
  In-append [] ys i = inr i
  In-append (x ∷ xs) ys (inl e) = inl (inl e)
  In-append (x ∷ xs) ys (inr i) = elim (In-append xs ys i) [ inl j ↦ inl (inr j) | inr j ↦ inr j ]

  pub In-append_left : (xs ys : List A) → In a xs → In a (xs ++ ys)
  In-append_left [] ys i = elim i [ ]
  In-append_left (x ∷ xs) ys (inl e) = inl e
  In-append_left (x ∷ xs) ys (inr i) = inr (In-append_left xs ys i)

  pub In-append_right : (xs ys : List A) → In a ys → In a (xs ++ ys)
  In-append_right [] ys i = i
  In-append_right (x ∷ xs) ys i = inr (In-append_right xs ys i)

  pub In-of-keep : (p : A → Bool) (xs : List A) → In a xs → p a ≡ true → In a (keep p xs)
  In-of-keep p [] i h = i
  In-of-keep p (x ∷ xs) (inl e) h = rw (ap p e ∙ h) (inl e)
  In-of-keep p (x ∷ xs) (inr i) h = In-later (p x) x (keep p xs) (In-of-keep p xs i h)
    where
      In-later : (b : Bool) (y : A) (ys : List A) → In a ys → In a (if b then y ∷ ys else ys)
      In-later true y ys j = inr j
      In-later false y ys j = j

-- Membership in the image of a function.
module _ {ℓ κ} {A : Type ℓ} {B : Type κ} (f : A → B) where
  pub In-map : (a : A) (xs : List A) → In a xs → In (f a) (map f xs)
  In-map a [] i = elim i [ ]
  In-map a (x ∷ xs) (inl e) = inl (ap f e)
  In-map a (x ∷ xs) (inr i) = inr (In-map a xs i)

  pub In-of-map : (b : B) (xs : List A) → In b (map f xs) → (a : A) × In a xs × (f a ≡ b)
  In-of-map b [] i = elim i [ ]
  In-of-map b (x ∷ xs) (inl e) = (x, inl refl, e)
  In-of-map b (x ∷ xs) (inr i) = let (a, j, e) = In-of-map b xs i in (a, inr j, e)

-- A list is empty or not, with its value.
pub List-cases {ℓ} :
    {A : Type ℓ} (xs : List A) → (xs ≡ []) ⊎ ((x : A) × (rest : List A) × (xs ≡ x ∷ rest))
List-cases [] = inl refl
List-cases (x ∷ rest) = inr (x, rest, refl)

-- A test that fails on each item.
pub any-false {ℓ} :
    {A : Type ℓ} (p : A → Bool) (xs : List A) → ((x : A) → In x xs → p x ≡ false) → any p xs ≡ false
any-false p [] h = refl
any-false p (x ∷ xs) h = ground (arith, h x (inl refl), any-false p xs (λ y i. h y (inr i)))
