-- ===== src/Graph/Traverse/Sets.antt =====
-- Lists of identifiers as sets.
use depsera.Prelude.{
  ℕ, ◌≤◌, ◌<◌, String, ◌≡◌, refl, sym, ap, ◌∙◌, inl, inr, true, false, not, ◌||◌, List, [], ◌∷◌,
  ◌++◌, keep, length, ◌==◌, In, In-keep, In-of-keep, arith, eq_refl, eq_false, Bool-cases,
  String-cases,
}
use depsera.Auth.{unique}
use depsera.Graph.Row.{includes}

pub In-of-includes : (k : String) (xs : List String) → includes xs k ≡ true → In k xs
In-of-includes k [] h = ground (arith, h)
In-of-includes k (x ∷ xs) h = elim (String-cases x k) [
  | inl same ↦ inl same
  | inr other ↦ inr (In-of-includes k xs (ground (arith, h, eq_false x k other)))
]

pub includes-of-In : (k : String) (xs : List String) → In k xs → includes xs k ≡ true
includes-of-In k [] i = elim i [ ]
includes-of-In k (x ∷ xs) (inl same) = ground (arith, same, eq_refl k)
includes-of-In k (x ∷ xs) (inr i) = ground (arith, includes-of-In k xs i)

pub In-unique : (k : String) (xs : List String) → In k (unique xs) → In k xs
unfolding unique
In-unique k [] i = i
In-unique k (x ∷ xs) (inl same) = inl same
In-unique k (x ∷ xs) (inr i) = inr (In-unique k xs (In-keep k (λ j. not (j == x)) (unique xs) i).0)

pub In-of-unique : (k : String) (xs : List String) → In k xs → In k (unique xs)
unfolding unique
In-of-unique k [] i = i
In-of-unique k (x ∷ xs) (inl same) = inl same
In-of-unique k (x ∷ xs) (inr i) = elim (String-cases x k) [
  | inl same ↦ inl same
  | inr other ↦ inr (
      In-of-keep k (λ j. not (j == x)) (unique xs) (In-of-unique k xs i)
        (ap not (eq_false k x (λ e. other (sym e)))))
]

pub includes-append :
    (xs ys : List String) (k : String) → includes (xs ++ ys) k ≡ (includes xs k || includes ys k)
includes-append [] ys k = refl
includes-append (x ∷ xs) ys k = ground (arith, includes-append xs ys k)

-- The identifiers of a list that are not in another.
abbrev pub missing : List String → List String → ℕ
missing universe visited = length (keep (λ id. not (includes visited id)) universe)

pub missing-append :
    (universe visited more : List String)
    → missing universe (visited ++ more) ≤ missing universe visited
missing-append [] visited more = omega arith
missing-append (x ∷ universe) visited more =
    let rest = missing-append universe visited more in
    elim (Bool-cases (includes visited x)) [
      | inl seen ↦ rw (includes-append visited more x) (rw seen rest)
      | inr unseen ↦ rw (includes-append visited more x) (
          rw unseen (elim (Bool-cases (includes more x)) [
            | inl new ↦ rw new (omega (arith, rest))
            | inr still ↦ rw still (omega (arith, rest))
          ]))
    ]

-- A new member of the universe makes fewer of it missing.
pub missing-falls :
    (universe visited more : List String) (k : String)
    → In k universe
    → includes visited k ≡ false
    → In k more
    → missing universe (visited ++ more) < missing universe visited
missing-falls [] visited more k i new m = elim i [ ]
missing-falls (x ∷ universe) visited more k (inl same) new m =
    let rest = missing-append universe visited more in
    let unseen : includes visited x ≡ false = ap (includes visited) same ∙ new in
    let seen : includes more x ≡ true = ap (includes more) same ∙ includes-of-In k more m in
    rw (includes-append visited more x) (rw unseen (rw seen (omega (arith, rest))))
missing-falls (x ∷ universe) visited more k (inr i) new m =
    let rest = missing-falls universe visited more k i new m in
    elim (Bool-cases (includes visited x)) [
      | inl seen ↦ rw (includes-append visited more x) (rw seen rest)
      | inr unseen ↦ rw (includes-append visited more x) (
          rw unseen (elim (Bool-cases (includes more x)) [
            | inl new_one ↦ rw new_one (omega (arith, rest))
            | inr still ↦ rw still (omega (arith, rest))
          ]))
    ]

pub missing_nothing : (universe : List String) → missing universe [] ≤ length universe
missing_nothing [] = omega arith
missing_nothing (x ∷ universe) = omega (arith, missing_nothing universe)
