-- ===== src/Drift/Reflag.antt =====
-- What happens to a dismissed flag when its drift is seen again.
use depsera.Prelude.{
  String, ◌≡◌, refl, ◌∙◌, ap, inl, inr, true, ◌&&◌, Option, none, some, [], ◌∷◌, ◌==◌,
  if◌then◌else◌, arith, eq_iff, Bool-cases,
}
use mathlib.Core.Option.{some-injective}
use depsera.Drift.{
  DriftFlag, DriftFlagStatus, Table, Subject, field_of, pending, dismissed, accepted, resolved,
  is_active, is_dismissed, is_active_on, find_active, update_where, upsert_field_drift, redetect,
  with_history, equals, DriftAction,
}
use depsera.Drift.Upsert.{field_found}
use depsera.Drift.Keys.{UniqueIds, find-holds, In-find, has_id-In}
use depsera.Drift.Unique.{active_of}
use depsera.Drift.History.{SameSubject, redetect_keeps}

find-update_where :
    (own : Subject) (e : DriftFlag) (g : DriftFlag → DriftFlag) (t : Table)
    → UniqueIds t
    → find_active own t ≡ some e
    → is_active_on own (g e) ≡ true
    → find_active own (update_where (λ f. f.id == e.id) g t) ≡ some (g e)
unfolding update_where
find-update_where own e g [] u found after = absurd (ground (arith))
find-update_where own e g (x ∷ t) (new, u) found after = elim (Bool-cases (is_active_on own x)) [
  | inl a ↦
      let here : x ≡ e = some-injective x e (ground (arith, a)) in
      ground (
        arith,
        eq_iff x.id e.id,
        ap (λ (r : DriftFlag). r.id) here,
        ap g here,
        ap (λ (r : DriftFlag). is_active_on own (g r)) here,
      )
  | inr n ↦
      let deeper : find_active own t ≡ some e = ground (arith, n) in
      elim (Bool-cases (x.id == e.id)) [
        | inl same ↦ absurd (
            ground (
              arith,
              new,
              has_id-In e t (In-find (is_active_on own) e t deeper),
              (eq_iff x.id e.id).0 same,
            ))
        | inr other ↦ ground (arith, n, other, find-update_where own e g t u deeper after)
      ]
]

status-with_history :
    (history : Option String) (f : DriftFlag) → (with_history history f).status ≡ f.status
status-with_history none f = refl
status-with_history (some id) f = elim (Bool-cases (id == "")) [
  | inl empty ↦ rw empty refl
  | inr given ↦ rw given refl
]

-- the status of a flag that is seen again
abbrev pub status_again : DriftFlag → String → DriftFlagStatus
status_again e manifest =
    if is_dismissed e.status && equals e.manifest_value manifest then dismissed else pending

status-redetect :
    (status : DriftFlagStatus) (now manifest current : String) (history stored : Option String)
    (e : DriftFlag)
    → e.status ≡ status
    → is_active status ≡ true
    → (redetect status now manifest current history stored e).0.status
      ≡ (if is_dismissed status && equals stored manifest then dismissed else pending)
status-redetect pending now manifest current history stored e same a =
    status-with_history history _ ∙ same
status-redetect dismissed now manifest current history stored e same a =
    elim (Bool-cases (equals stored manifest)) [
      | inl unchanged_value ↦ rw unchanged_value (status-with_history history _ ∙ same)
      | inr other ↦ rw other refl
    ]
status-redetect accepted now manifest current history stored e same a = absurd (cc a)
status-redetect resolved now manifest current history stored e same a = absurd (cc a)

active_again :
    (own : Subject) (e g : DriftFlag)
    → SameSubject g e
    → is_active_on own e ≡ true
    → is_active g.status ≡ true
    → is_active_on own g ≡ true
unfolding is_active_on
active_again own e g (_, a, b, c) h active = ground (arith)

active-status_again :
    (e : DriftFlag) (manifest : String) → is_active (status_again e manifest) ≡ true
active-status_again e manifest =
    elim (Bool-cases (is_dismissed e.status && equals e.manifest_value manifest)) [
      | inl d ↦ rw d refl
      | inr p ↦ rw p refl
    ]

-- If identifiers are unique and a field has an active flag, an upsert for the field keeps that flag
-- the field's active one: it stays dismissed exactly if it was and the manifest's value is the one
-- that was dismissed, and is pending otherwise.
pub reflag_lem :
    (team_of : String → Option String) (now id service field manifest current : String)
    (history config : Option String) (t : Table) (e : DriftFlag)
    → UniqueIds t
    → find_active (field_of service field) t ≡ some e
    → (u : Table) × (action : DriftAction) × (f : DriftFlag) × (upsert_field_drift team_of now id
          service field manifest current history config t
        ≡ some (u, action))
      × (find_active (field_of service field) u ≡ some f)
      × (f.id ≡ e.id)
      × (f.status ≡ status_again e manifest)
reflag_lem team_of now id service field manifest current history config t e unique found =
    let own = field_of service field in
    let change = redetect e.status now manifest current history e.manifest_value in
    let kept = redetect_keeps e.status now manifest current history e.manifest_value e in
    let on = find-holds (is_active_on own) e t found in
    let again =
      status-redetect e.status now manifest current history e.manifest_value e refl
        (active_of own e on) in
    (
      update_where (λ f. f.id == e.id) (λ f. (change f).0) t,
      (change e).1,
      (change e).0,
      field_found team_of now id service history config t field manifest current e found,
      find-update_where own e (λ f. (change f).0) t unique found
          (active_again own e (change e).0 kept on
            (ap is_active again ∙ active-status_again e manifest)),
      kept.0,
      again,
    )
