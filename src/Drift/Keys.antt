-- ===== src/Drift/Keys.antt =====
-- Identifiers as a primary key of the table.
use depsera.Prelude.{
  String, ◌≡◌, refl, sym, ◌∙◌, ap, inl, inr, Bool, true, false, some, [], ◌∷◌, ◌++◌, keep, any,
  find, In, eq_refl, ◌==◌, arith, eq_iff, Bool-cases,
}
use mathlib.Core.Option.{some-injective}
use depsera.Drift.{DriftFlag, Table, update_where}

abbrev pub has_id : String → Table → Bool
has_id id t = any (λ (f : DriftFlag). f.id == id) t

-- The identifiers are a primary key.
abbrev pub UniqueIds : Table → Type 0
UniqueIds [] = Unit
UniqueIds (f ∷ t) = (has_id f.id t ≡ false) × UniqueIds t

pub has_id-update_where :
    (id : String) (p : DriftFlag → Bool) (g : DriftFlag → DriftFlag)
    → ((f : DriftFlag) → (g f).id ≡ f.id)
    → (t : Table) → has_id id (update_where p g t) ≡ has_id id t
unfolding update_where
has_id-update_where id p g same [] = refl
has_id-update_where id p g same (f ∷ t) = ground (arith, has_id-update_where id p g same t, same f)

pub UniqueIds-update_where :
    (p : DriftFlag → Bool) (g : DriftFlag → DriftFlag)
    → ((f : DriftFlag) → (g f).id ≡ f.id)
    → (t : Table) → UniqueIds t
    → UniqueIds (update_where p g t)
unfolding update_where
UniqueIds-update_where p g same [] u = tt
UniqueIds-update_where p g same (f ∷ t) (new, u) =
    let rest = UniqueIds-update_where p g same t u in
    elim (Bool-cases (p f)) [
      | inl chosen ↦
          rw chosen
            (has_id-update_where (g f).id p g same t ∙ ap (λ i. has_id i t) (same f) ∙ new, rest)
      | inr other ↦ rw other (has_id-update_where f.id p g same t ∙ new, rest)
    ]

pub has_id-keep :
    (id : String) (q : DriftFlag → Bool) (t : Table)
    → has_id id t ≡ false
    → has_id id (keep q t) ≡ false
has_id-keep id q [] h = refl
has_id-keep id q (f ∷ t) h = ground (arith, has_id-keep id q t)

pub UniqueIds-keep : (q : DriftFlag → Bool) (t : Table) → UniqueIds t → UniqueIds (keep q t)
UniqueIds-keep q [] u = tt
UniqueIds-keep q (f ∷ t) (new, u) = elim (Bool-cases (q f)) [
  | inl kept ↦ rw kept (has_id-keep f.id q t new, UniqueIds-keep q t u)
  | inr gone ↦ rw gone (UniqueIds-keep q t u)
]

pub has_id-append_one :
    (id : String) (t : Table) (f : DriftFlag)
    → has_id id t ≡ false
    → (f.id == id) ≡ false
    → has_id id (t ++ f ∷ []) ≡ false
has_id-append_one id [] f h n = ground (arith)
has_id-append_one id (x ∷ t) f h n = ground (arith, has_id-append_one id t f)

pub UniqueIds-append_one :
    (t : Table) (f : DriftFlag) → UniqueIds t → has_id f.id t ≡ false → UniqueIds (t ++ f ∷ [])
UniqueIds-append_one [] f u h = (refl, tt)
UniqueIds-append_one (x ∷ t) f (new, u) h = (
  has_id-append_one x.id t f new (ground (arith, eq_iff f.id x.id, eq_iff x.id f.id)),
  UniqueIds-append_one t f u (ground (arith)),
)

pub has_id-In : (f : DriftFlag) (t : Table) → In f t → has_id f.id t ≡ true
has_id-In f [] i = elim i [ ]
has_id-In f (x ∷ t) (inl e) = ground (arith, eq_refl f.id, e)
has_id-In f (x ∷ t) (inr i) = ground (arith, has_id-In f t i)

pub In-find : (p : DriftFlag → Bool) (e : DriftFlag) (t : Table) → find p t ≡ some e → In e t
In-find p e [] h = absurd (ground (arith))
In-find p e (x ∷ t) h = elim (Bool-cases (p x)) [
  | inl chosen ↦ inl (some-injective x e (ground (arith, chosen)))
  | inr other ↦ inr (In-find p e t (ground (arith, other)))
]

-- By the primary key, the row with the identifier of a row that is found is that row.
pub found_row :
    (p : DriftFlag → Bool) (e f : DriftFlag) (t : Table)
    → UniqueIds t
    → find p t ≡ some e
    → In f t
    → (f.id == e.id) ≡ true
    → f ≡ e
found_row p e f [] u h i same = elim i [ ]
found_row p e f (x ∷ t) (new, u) h i same = elim (Bool-cases (p x)) [
  | inl chosen ↦
      let is_head : x ≡ e = some-injective x e (ground (arith, chosen)) in
      elim i [
        | inl here ↦ sym here ∙ is_head
        | inr later ↦ absurd (
            ground (
              arith,
              new,
              has_id-In f t later,
              (eq_iff f.id e.id).0 same,
              ap (λ (r : DriftFlag). r.id) is_head,
            ))
      ]
  | inr other ↦
      let deeper : find p t ≡ some e = ground (arith, other) in
      elim i [
        | inl here ↦ absurd (
            ground (
              arith,
              new,
              has_id-In e t (In-find p e t deeper),
              (eq_iff f.id e.id).0 same,
              ap (λ (r : DriftFlag). r.id) here,
            ))
        | inr later ↦ found_row p e f t u deeper later same
      ]
]

pub find-holds : (p : DriftFlag → Bool) (e : DriftFlag) (t : Table) → find p t ≡ some e → p e ≡ true
find-holds p e [] h = absurd (ground (arith))
find-holds p e (x ∷ t) h = elim (Bool-cases (p x)) [
  | inl chosen ↦ ap p (sym (some-injective x e (ground (arith, chosen)))) ∙ chosen
  | inr other ↦ find-holds p e t (ground (arith, other))
]
