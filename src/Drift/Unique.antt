-- ===== src/Drift/Unique.antt =====
-- Counting the active flags of a service and field, or of a removal.
use depsera.Prelude.{
  ℕ, ◌+◌, ◌≤◌, String, ◌≡◌, refl, sym, subst, ◌∙◌, ap, inl, inr, Bool, true, false, none, some, [],
  ◌∷◌, ◌++◌, keep, length, In, ◌==◌, if◌then◌else◌, arith, eq_iff, Bool-cases,
}
use depsera.Drift.{
  DriftFlag, Table, Subject, field_of, removal_of, field_change, service_removal, is_active_on,
  find_active, update_where, is_active, service_of, type_matches,
}
use depsera.Drift.Keys.{
  has_id, UniqueIds, UniqueIds-update_where, UniqueIds-append_one, found_row, find-holds,
}

abbrev pub count : Subject → Table → ℕ
count s t = length (keep (is_active_on s) t)

-- What holds of the table: its primary key, and one active flag of the subject at most.
pub record Sound (s : Subject) (t : Table) : Type 0 where
  pub ids : UniqueIds t
  pub single : count s t ≤ 1

count-update_where :
    (s : Subject) (p : DriftFlag → Bool) (g : DriftFlag → DriftFlag) (t : Table)
    → ((f : DriftFlag)
        → In f t
        → p f ≡ true
        → is_active_on s (g f) ≡ true
        → is_active_on s f ≡ true)
    → count s (update_where p g t) ≤ count s t
unfolding update_where
count-update_where s p g [] keeps = omega arith
count-update_where s p g (f ∷ t) keeps =
    let rest = count-update_where s p g t (λ x i. keeps x (inr i)) in
    elim (Bool-cases (p f)) [
      | inr other ↦ elim (Bool-cases (is_active_on s f)) [
        | inl a ↦ rw (other, a) (omega (arith, rest))
        | inr n ↦ rw (other, n) rest
      ]
      | inl chosen ↦ elim (Bool-cases (is_active_on s (g f))) [
        | inl after ↦ rw (chosen, after, keeps f (inl refl) chosen after) (omega (arith, rest))
        | inr gone ↦ elim (Bool-cases (is_active_on s f)) [
          | inl a ↦ rw (chosen, gone, a) (omega (arith, rest))
          | inr n ↦ rw (chosen, gone, n) rest
        ]
      ]
    ]

pub count-keep : (s : Subject) (q : DriftFlag → Bool) (t : Table) → count s (keep q t) ≤ count s t
count-keep s q [] = omega arith
count-keep s q (f ∷ t) =
    let rest = count-keep s q t in
    elim (Bool-cases (q f)) [
      | inl kept ↦ elim (Bool-cases (is_active_on s f)) [
        | inl a ↦ rw (kept, a) (omega (arith, rest))
        | inr n ↦ rw (kept, n) rest
      ]
      | inr gone ↦ elim (Bool-cases (is_active_on s f)) [
        | inl a ↦ rw (gone, a) (omega (arith, rest))
        | inr n ↦ rw (gone, n) rest
      ]
    ]

count-append_one :
    (s : Subject) (t : Table) (f : DriftFlag)
    → count s (t ++ f ∷ []) ≡ count s t + (if is_active_on s f then 1 else 0)
count-append_one s [] f = elim (Bool-cases (is_active_on s f)) [
  | inl a ↦ rw a refl
  | inr n ↦ rw n refl
]
count-append_one s (x ∷ t) f =
    let rest = count-append_one s t f in
    elim (Bool-cases (is_active_on s x)) [ inl a ↦ rw a (omega (arith, rest)) | inr n ↦ rw n rest ]

none_active : (s : Subject) (t : Table) → find_active s t ≡ none → count s t ≡ 0
none_active s [] h = refl
none_active s (f ∷ t) h = elim (Bool-cases (is_active_on s f)) [
  | inl a ↦ absurd (ground (arith, a))
  | inr n ↦ rw n (none_active s t (ground (arith, n)))
]

-- A row that is active only on a subject that has no active row can be added.
count-add :
    (s own : Subject) (t : Table) (f : DriftFlag)
    → find_active own t ≡ none
    → (is_active_on s f ≡ true → s ≡ own)
    → count s t ≤ 1
    → count s (t ++ f ∷ []) ≤ 1
count-add s own t f free mine most = elim (Bool-cases (is_active_on s f)) [
  | inl a ↦
      let empty = none_active s t (subst (λ u. find_active u t ≡ none) (sym (mine a)) free) in
      rw (count-append_one s t f, a) (omega (arith, empty))
  | inr n ↦ rw (count-append_one s t f, n) (omega (arith, most))
]

pub field_subject :
    (s : Subject) (f : DriftFlag) (field : String)
    → f.drift_type ≡ field_change
    → f.field_name ≡ some field
    → is_active_on s f ≡ true
    → s ≡ field_of f.service_id field
unfolding is_active_on
field_subject (field_of service name) f field kind named a =
    ground (arith, eq_iff f.service_id service, eq_iff field name)
field_subject (removal_of service) f field kind named a = ground (arith)

pub removal_subject :
    (s : Subject) (f : DriftFlag)
    → f.drift_type ≡ service_removal
    → is_active_on s f ≡ true
    → s ≡ removal_of f.service_id
unfolding is_active_on
removal_subject (field_of service name) f kind a = ground (arith)
removal_subject (removal_of service) f kind a = ground (arith, eq_iff f.service_id service)

pub Sound-update_where :
    (s : Subject) (p : DriftFlag → Bool) (g : DriftFlag → DriftFlag) (t : Table)
    → ((f : DriftFlag) → (g f).id ≡ f.id)
    → ((f : DriftFlag)
        → In f t
        → p f ≡ true
        → is_active_on s (g f) ≡ true
        → is_active_on s f ≡ true)
    → Sound s t
    → Sound s (update_where p g t)
Sound-update_where s p g t same keeps h = record {
  ids = UniqueIds-update_where p g same t h.ids;
  single = omega (arith, h.single, count-update_where s p g t keeps);
}

pub Sound-append_one :
    (s own : Subject) (t : Table) (f : DriftFlag)
    → find_active own t ≡ none
    → (is_active_on s f ≡ true → s ≡ own)
    → has_id f.id t ≡ false
    → Sound s t
    → Sound s (t ++ f ∷ [])
Sound-append_one s own t f free mine fresh h = record {
  ids = UniqueIds-append_one t f h.ids fresh;
  single = count-add s own t f free mine h.single;
}

pub Sound-append_free :
    (s : Subject) (t : Table) (f : DriftFlag)
    → (is_active_on s f ≡ true → find_active s t ≡ none)
    → has_id f.id t ≡ false
    → Sound s t
    → Sound s (t ++ f ∷ [])
Sound-append_free s t f free fresh h = record {
  ids = UniqueIds-append_one t f h.ids fresh;
  single = elim (Bool-cases (is_active_on s f)) [
    | inl a ↦ rw (count-append_one s t f, a) (omega (arith, none_active s t (free a)))
    | inr n ↦ rw (count-append_one s t f, n) (omega (arith, h.single))
  ];
}

-- The subjects of a new flag are those that its service, type and field match.
pub new_subject :
    (s : Subject) (f : DriftFlag)
    → is_active_on s f ≡ true
    → (service_of s ≡ f.service_id) × (type_matches s f.drift_type f.field_name ≡ true)
unfolding is_active_on
new_subject s f a = (ground (arith, a, eq_iff f.service_id (service_of s)), ground (arith, a))

pub active_kept :
    (s : Subject) (f g : DriftFlag)
    → g.service_id ≡ f.service_id
    → g.drift_type ≡ f.drift_type
    → g.field_name ≡ f.field_name
    → is_active f.status ≡ true
    → is_active_on s g ≡ true
    → is_active_on s f ≡ true
unfolding is_active_on
active_kept s f g a b c active after = ground (arith)

pub active_of : (s : Subject) (f : DriftFlag) → is_active_on s f ≡ true → is_active f.status ≡ true
unfolding is_active_on
active_of s f h = ground (arith)

-- A row with the identifier of the active flag that was found is active.
pub row_active :
    (own : Subject) (e f : DriftFlag) (t : Table)
    → UniqueIds t
    → find_active own t ≡ some e
    → In f t
    → (f.id == e.id) ≡ true
    → is_active f.status ≡ true
row_active own e f t u found i same =
    let row = found_row (is_active_on own) e f t u found i same in
    ap (λ (r : DriftFlag). is_active r.status) row
    ∙ active_of own e (find-holds (is_active_on own) e t found)
