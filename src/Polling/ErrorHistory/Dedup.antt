-- ===== src/Polling/ErrorHistory/Dedup.antt =====
-- The history of a dependency against the reports about it.
use depsera.Prelude.{
  String, ◌≡◌, refl, ap, ◌∙◌, sym, subst, inl, inr, Bool, true, false, Option, none, some, List, [],
  ◌∷◌, ◌&&◌, ◌==◌, or_else, arith, eq_iff, eq_refl, eq_false, Bool-cases, String-cases,
  Option-cases, if◌then◌else◌,
}
use depsera.Polling.ErrorHistory.{
  DependencyErrorHistory, ErrorHistory, Report, is_of, is_after, last_of, unhealthy_marker,
  handle_recovery, handle_error, record_error,
}

-- What a report says: no error, or the error that is recorded for it.
abbrev pub status : Report → Option String
status r = if r.is_healthy then none else some (or_else r.error_json unhealthy_marker)

-- The calls of `record`, newest first.
unfoldable pub record_all : ErrorHistory → List Report → ErrorHistory
record_all h [] = h
record_all h (r ∷ older) = record_error r (record_all h older)

-- The errors of a dependency in the history, newest first.
abbrev pub errors_of : String → List DependencyErrorHistory → List (Option String)
errors_of d [] = []
errors_of d (e ∷ entries) =
    let rest = errors_of d entries in if is_of d e then e.error ∷ rest else rest

-- The statuses of a dependency in the reports, newest first.
abbrev pub statuses_of : String → List Report → List (Option String)
statuses_of d [] = []
statuses_of d (r ∷ reports) =
    let rest = statuses_of d reports in if r.dependency_id == d then status r ∷ rest else rest

-- A dependency is healthy before anything is known of it.
abbrev pub newest : List (Option String) → Option String
newest [] = none
newest (s ∷ older) = s

abbrev pub is_same : Option String → Option String → Bool
is_same none none = true
is_same (some a) (some b) = a == b
is_same _ _ = false

-- The changes of a sequence of statuses.
abbrev pub changes : List (Option String) → List (Option String)
changes [] = []
changes (s ∷ older) = let rest = changes older in if is_same (newest rest) s then rest else s ∷ rest

-- A time after those of the entries of a dependency.
abbrev is_after_entries : String → String → List DependencyErrorHistory → Bool
is_after_entries d time [] = true
is_after_entries d time (e ∷ entries) =
    let rest = is_after_entries d time entries in
    if is_of d e then is_after time e.recorded_at && rest else rest

-- A time after those of the reports about a dependency.
abbrev pub is_after_reports : String → String → List Report → Bool
is_after_reports d time [] = true
is_after_reports d time (r ∷ older) =
    let rest = is_after_reports d time older in
    if r.dependency_id == d then is_after time r.timestamp && rest else rest

-- The reports about a dependency, newest first, each have a later time than those before.
abbrev pub in_order : String → List Report → Bool
in_order d [] = true
in_order d (r ∷ older) =
    let rest = in_order d older in
    if r.dependency_id == d then is_after_reports d r.timestamp older && rest else rest

abbrev error_of : Option DependencyErrorHistory → Option String
error_of none = none
error_of (some e) = e.error

after_last_of :
    (d time : String) (entries : List DependencyErrorHistory)
    → is_after_entries d time entries ≡ true
    → elim (last_of d entries) [ none ↦ true | some e ↦ is_after time e.recorded_at ] ≡ true
after_last_of d time [] h = refl
after_last_of d time (e ∷ entries) h = ground (arith, h, after_last_of d time entries)

-- The entry that the store returns is the row inserted last.
abbrev IsAligned : String → List DependencyErrorHistory → Type 0
IsAligned d entries = error_of (last_of d entries) ≡ newest (errors_of d entries)

recorded_here :
    (r : Report) (h : ErrorHistory)
    → IsAligned r.dependency_id h.entries
    → errors_of r.dependency_id (record_error r h).entries ≡ (
        if is_same (newest (errors_of r.dependency_id h.entries)) (status r)
        then errors_of r.dependency_id h.entries
        else status r ∷ errors_of r.dependency_id h.entries)
unfolding record_error handle_recovery handle_error
recorded_here r h aligned = elim (Option-cases (last_of r.dependency_id h.entries)) [
  | inl nothing ↦ ground (arith, nothing, aligned, eq_refl r.dependency_id)
  | inr (last, found) ↦ elim (Option-cases last.error) [
    | inl recovery ↦ ground (arith, found, recovery, aligned, eq_refl r.dependency_id)
    | inr (error, e) ↦ ground (arith, found, e, aligned, eq_refl r.dependency_id)
  ]
]

recorded_elsewhere :
    (d : String) (r : Report) (h : ErrorHistory)
    → (r.dependency_id == d) ≡ false
    → errors_of d (record_error r h).entries ≡ errors_of d h.entries
unfolding record_error handle_recovery handle_error
recorded_elsewhere d r h other = elim (Option-cases (last_of r.dependency_id h.entries)) [
  | inl nothing ↦ ground (arith, nothing, other)
  | inr (last, found) ↦ elim (Option-cases last.error) [
    | inl recovery ↦ ground (arith, found, recovery, other)
    | inr (error, e) ↦ ground (arith, found, e, other)
  ]
]

record_error_lem :
    (d : String) (r : Report) (h : ErrorHistory)
    → IsAligned d h.entries
    → errors_of d (record_error r h).entries ≡ (
        if r.dependency_id == d
        then (if is_same (newest (errors_of d h.entries)) (status r)
            then errors_of d h.entries
            else status r ∷ errors_of d h.entries)
        else errors_of d h.entries)
record_error_lem d r h aligned = elim (String-cases r.dependency_id d) [
  | inl same ↦
      subst
        (λ i. errors_of i (record_error r h).entries ≡ (
          if r.dependency_id == i
          then (if is_same (newest (errors_of i h.entries)) (status r)
              then errors_of i h.entries
              else status r ∷ errors_of i h.entries)
          else errors_of i h.entries))
        same
        (rw (eq_refl r.dependency_id)
          (recorded_here r h (subst (λ i. IsAligned i h.entries) (sym same) aligned)))
  | inr other ↦
      rw (eq_false r.dependency_id d other)
        (recorded_elsewhere d r h (eq_false r.dependency_id d other))
]

is_same_eq : (a b : Option String) → is_same a b ≡ true → a ≡ b
is_same_eq none none h = refl
is_same_eq none (some b) h = ground (arith, h)
is_same_eq (some a) none h = ground (arith, h)
is_same_eq (some a) (some b) h = ap some ((eq_iff a b).0 h)

newest-changes : (statuses : List (Option String)) → newest (changes statuses) ≡ newest statuses
newest-changes [] = refl
newest-changes (s ∷ older) = elim (Bool-cases (is_same (newest (changes older)) s)) [
  | inl same ↦ rw same (is_same_eq (newest (changes older)) s same)
  | inr differs ↦ rw differs refl
]

after_recorded :
    (d time : String) (r : Report) (h : ErrorHistory)
    → is_after_entries d time h.entries ≡ true
    → (if r.dependency_id == d then is_after time r.timestamp else true) ≡ true
    → is_after_entries d time (record_error r h).entries ≡ true
unfolding record_error handle_recovery handle_error
after_recorded d time r h before later = elim (Option-cases (last_of r.dependency_id h.entries)) [
  | inl nothing ↦ ground (arith, nothing, before, later)
  | inr (last, found) ↦ elim (Option-cases last.error) [
    | inl recovery ↦ ground (arith, found, recovery, before, later)
    | inr (error, e) ↦ ground (arith, found, e, before, later)
  ]
]

record_error-IsAligned :
    (d : String) (r : Report) (h : ErrorHistory)
    → IsAligned d h.entries
    → (if r.dependency_id == d then is_after_entries d r.timestamp h.entries else true) ≡ true
    → IsAligned d (record_error r h).entries
unfolding record_error handle_recovery handle_error
record_error-IsAligned d r h aligned later =
    elim (Option-cases (last_of r.dependency_id h.entries)) [
      | inl nothing ↦ ground (arith, nothing, aligned, later, after_last_of d r.timestamp h.entries)
      | inr (last, found) ↦ elim (Option-cases last.error) [
        | inl recovery ↦
            ground (arith, found, recovery, aligned, later, after_last_of d r.timestamp h.entries)
        | inr (error, e) ↦
            ground (arith, found, e, aligned, later, after_last_of d r.timestamp h.entries)
      ]
    ]

after_record_all :
    (d time : String) (h : ErrorHistory) (reports : List Report)
    → h.entries ≡ []
    → is_after_reports d time reports ≡ true
    → is_after_entries d time (record_all h reports).entries ≡ true
unfolding record_all
after_record_all d time h [] empty later = rw empty refl
after_record_all d time h (r ∷ older) empty later =
    after_recorded d time r (record_all h older)
      (after_record_all d time h older empty (ground (arith, later))) (ground (arith, later))

record_all-IsAligned :
    (d : String) (h : ErrorHistory) (reports : List Report)
    → h.entries ≡ []
    → in_order d reports ≡ true
    → IsAligned d (record_all h reports).entries
unfolding record_all
record_all-IsAligned d h [] empty order = rw empty refl
record_all-IsAligned d h (r ∷ older) empty order =
    record_error-IsAligned d r (record_all h older)
      (record_all-IsAligned d h older empty (ground (arith, order)))
      (ground (arith, order, after_record_all d r.timestamp h older empty))

errors_of-record_all :
    (d : String) (h : ErrorHistory) (reports : List Report)
    → h.entries ≡ []
    → in_order d reports ≡ true
    → errors_of d (record_all h reports).entries ≡ changes (statuses_of d reports)
unfolding record_all
errors_of-record_all d h [] empty order = rw empty refl
errors_of-record_all d h (r ∷ older) empty order =
    let older_order : in_order d older ≡ true = ground (arith, order) in
    record_error_lem d r (record_all h older) (record_all-IsAligned d h older empty older_order)
    ∙ ground (arith, errors_of-record_all d h older empty older_order)

-- Starting from an empty table, if each report about a dependency has a later time than those about
-- it before, the history of the dependency holds the changes of what was reported about it and
-- nothing else: the errors of its entries are the reported statuses without those that repeat the
-- one before, where what comes before the first report counts as healthy. So its newest entry tells
-- what was reported last.
pub record_all_lem :
    (d : String) (h : ErrorHistory) (reports : List Report)
    → h.entries ≡ []
    → in_order d reports ≡ true
    → (errors_of d (record_all h reports).entries ≡ changes (statuses_of d reports))
      × (newest (errors_of d (record_all h reports).entries) ≡ newest (statuses_of d reports))
record_all_lem d h reports empty order =
    let same = errors_of-record_all d h reports empty order in
    (same, ap newest same ∙ newest-changes (statuses_of d reports))
