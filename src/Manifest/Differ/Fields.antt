-- ===== src/Manifest/Differ/Fields.antt =====
-- What the differ does with the fields of one service.
use mathlib.Core.Option.{some-injective}
use depsera.Prelude.{
  ◌≡◌, ◌≢◌, ◌↔◌, ◌⊎◌, inl, inr, refl, true, some, List, [], ◌∷◌, arith, eq_iff, In, Option-cases,
  Bool-cases, String-cases, subst, ap, sym, ◌∙◌,
}
use depsera.Types.{Service}
use depsera.Manifest.Differ.{
  FieldDriftPolicy, flag, manifest_wins, local_wins, SyncableField, Value, Json,
  ManifestServiceEntry, ManifestDriftEntry, FieldAction, skip, safe, drift, keep_local, on_edit,
  is_specified, get_manifest_field_value, normalize_to_string, parse_last_synced_values,
  manifest_text, db_text, diff_field, FieldDiff, drift_entry, add_field, diff_fields,
}

wins_of_safe :
    (policy : FieldDriftPolicy) {a : FieldAction}
    → a ≡ on_edit policy
    → a ≡ safe
    → policy ≡ manifest_wins
wins_of_safe flag e s = cc
wins_of_safe manifest_wins e s = refl
wins_of_safe local_wins e s = cc

flag_of_drift :
    (policy : FieldDriftPolicy) {a : FieldAction} → a ≡ on_edit policy → a ≡ drift → policy ≡ flag
flag_of_drift flag e s = refl
flag_of_drift manifest_wins e s = cc
flag_of_drift local_wins e s = cc

module _ (json : Json) (entry : ManifestServiceEntry json) (existing : Service) where
  -- The value in the database is not the one that the last sync wrote.
  abbrev pub Edited : SyncableField → Type 0
  Edited field =
      (last_synced : SyncableField → Value json.Object) × (parse_last_synced_values json
          existing.manifest_last_synced_values
        ≡ some last_synced)
      × (db_text json existing field ≢ normalize_to_string json (last_synced field))

  -- The manifest gives the field a value whose text is not the one in the database.
  abbrev pub Differs : SyncableField → Type 0
  Differs field =
      (is_specified json (get_manifest_field_value json entry field) ≡ true)
      × (manifest_text json entry field ≢ db_text json existing field)

  -- A field is skipped if its texts do not differ; otherwise the policy decides if it was edited
  -- since the last sync, and it is safe to update if it was not, or on the first sync.
  pub diff_field_lem :
      (policy : FieldDriftPolicy) (field : SyncableField)
      → (¬ Differs field → diff_field json entry existing policy field ≡ skip)
        × (Differs field
            → Edited field
            → diff_field json entry existing policy field ≡ on_edit policy)
        × (Differs field → ¬ Edited field → diff_field json entry existing policy field ≡ safe)
  unfolding diff_field
  diff_field_lem policy field =
      let eq_db = eq_iff (manifest_text json entry field) (db_text json existing field) in
      (
        λ same. elim (Bool-cases (is_specified json (get_manifest_field_value json entry field))) [
          | inr absent ↦ ground arith
          | inl given ↦
              elim (String-cases (manifest_text json entry field) (db_text json existing field)) [
                | inl equal ↦ ground (arith, eq_db)
                | inr other ↦ absurd (same (given, other))
              ]
        ],
        λ (given, other) (ls, parsed, edited). ground (
          arith,
          eq_db,
          eq_iff (db_text json existing field) (normalize_to_string json (ls field)),
        ),
        λ (given, other) kept.
            elim (Option-cases
              (parse_last_synced_values json existing.manifest_last_synced_values)) [
                | inl first ↦ ground (arith, eq_db)
                | inr (ls, parsed) ↦
                    elim (String-cases (db_text json existing field)
                      (normalize_to_string json (ls field))) [
                        | inl synced ↦ ground (
                          arith,
                          eq_db,
                          eq_iff (db_text json existing field)
                              (normalize_to_string json (ls field)),
                        )
                        | inr edited ↦ absurd (kept (ls, parsed, edited))
                      ]
              ],
      )

  Differs-of_action :
      (policy : FieldDriftPolicy) (field : SyncableField)
      → diff_field json entry existing policy field ≢ skip
      → Differs field
  unfolding diff_field
  Differs-of_action policy field acts = (
    ground arith,
    λ same.
        acts
          (ground (arith, eq_iff (manifest_text json entry field) (db_text json existing field))),
  )

  Edited-cases : (field : SyncableField) → Edited field ⊎ (¬ Edited field)
  Edited-cases field =
      elim (Option-cases (parse_last_synced_values json existing.manifest_last_synced_values)) [
        | inl first ↦ inr (λ (ls, parsed, ne). cc (first, parsed))
        | inr (ls, parsed) ↦
            elim (String-cases (db_text json existing field)
              (normalize_to_string json (ls field))) [
                | inr edited ↦ inl (ls, parsed, edited)
                | inl synced ↦ inr (λ (other, again, ne). ne (
                    synced
                    ∙ ap (λ l. normalize_to_string json (l field))
                        (some-injective ls other (sym parsed ∙ again))))
              ]
      ]

  safe_only_if :
      (policy : FieldDriftPolicy) (field : SyncableField)
      → diff_field json entry existing policy field ≡ safe
      → Differs field × ((policy ≡ manifest_wins) ⊎ (¬ Edited field))
  safe_only_if policy field e =
      let differs = Differs-of_action policy field (λ s. cc (s, e)) in
      (
        differs,
        elim (Edited-cases field) [
          | inl edited ↦
              inl (wins_of_safe policy ((diff_field_lem policy field).1 differs edited) e)
          | inr kept ↦ inr kept
        ],
      )

  drift_only_if :
      (policy : FieldDriftPolicy) (field : SyncableField)
      → diff_field json entry existing policy field ≡ drift
      → Differs field × Edited field × (policy ≡ flag)
  drift_only_if policy field e =
      let differs = Differs-of_action policy field (λ s. cc (s, e)) in
      elim (Edited-cases field) [
        | inl edited ↦ (
          differs,
          edited,
          flag_of_drift policy ((diff_field_lem policy field).1 differs edited) e,
        )
        | inr kept ↦ absurd (cc (e, (diff_field_lem policy field).2 differs kept))
      ]

  pub from_safe :
      (field f : SyncableField) (a : FieldAction) (d : FieldDiff json)
      → In field (add_field json entry existing f a d).safe_fields
      → ((f ≡ field) × (a ≡ safe)) ⊎ In field d.safe_fields
  from_safe field f skip d i = inr i
  from_safe field f safe d (inl e) = inl (e, refl)
  from_safe field f safe d (inr i) = inr i
  from_safe field f drift d i = inr i
  from_safe field f keep_local d i = inr i

  from_drift :
      (x : ManifestDriftEntry json) (f : SyncableField) (a : FieldAction) (d : FieldDiff json)
      → In x (add_field json entry existing f a d).drift_entries
      → ((drift_entry json entry existing f ≡ x) × (a ≡ drift)) ⊎ In x d.drift_entries
  from_drift x f skip d i = inr i
  from_drift x f safe d i = inr i
  from_drift x f drift d (inl e) = inl (e, refl)
  from_drift x f drift d (inr i) = inr i
  from_drift x f keep_local d i = inr i

  -- Every field that a sync would overwrite differs from the manifest, and either the policy says
  -- that the manifest wins or the field was not edited since the last sync.
  pub updates_keep_edits :
      (policy : FieldDriftPolicy) (field : SyncableField) (fields : List SyncableField)
      → In field (diff_fields json entry existing policy fields).safe_fields
      → Differs field × ((policy ≡ manifest_wins) ⊎ (¬ Edited field))
  unfolding diff_fields
  updates_keep_edits policy field [] i = elim i [ ]
  updates_keep_edits policy field (f ∷ fields) i =
      elim (from_safe field f (diff_field json entry existing policy f)
        (diff_fields json entry existing policy fields) i) [
          | inl (same, is_safe) ↦
              safe_only_if policy field
                (ap (diff_field json entry existing policy) (sym same) ∙ is_safe)
          | inr later ↦ updates_keep_edits policy field fields later
        ]

  later_drift :
      (x : ManifestDriftEntry json) (f : SyncableField) (a : FieldAction) (d : FieldDiff json)
      → In x d.drift_entries
      → In x (add_field json entry existing f a d).drift_entries
  later_drift x f skip d i = i
  later_drift x f safe d i = i
  later_drift x f drift d i = inr i
  later_drift x f keep_local d i = i

  now_drift :
      (x : ManifestDriftEntry json) (f : SyncableField) (a : FieldAction) (d : FieldDiff json)
      → a ≡ drift
      → drift_entry json entry existing f ≡ x
      → In x (add_field json entry existing f a d).drift_entries
  now_drift x f a d e same =
      subst (λ b. In x (add_field json entry existing f b d).drift_entries) (sym e) (inl same)

  -- Drift is flagged for a field exactly if the policy flags drift, the field differs from the
  -- manifest and it was edited since the last sync.
  pub drift_flagged_iff :
      (policy : FieldDriftPolicy) (x : ManifestDriftEntry json) (fields : List SyncableField)
      → In x (diff_fields json entry existing policy fields).drift_entries ↔ (
          (field : SyncableField) × In field fields
          × (drift_entry json entry existing field ≡ x)
          × Differs field
          × Edited field
          × (policy ≡ flag))
  unfolding diff_fields
  drift_flagged_iff policy x [] = (λ i. elim i [ ], λ (f, i, a, b, c, d). elim i [ ])
  drift_flagged_iff policy x (f ∷ fields) =
      let d = diff_fields json entry existing policy fields in
      let a = diff_field json entry existing policy f in
      (
        λ i. elim (from_drift x f a d i) [
          | inl (same, is_drift) ↦
              let (differs, edited, flags) = drift_only_if policy f is_drift in
              (f, inl refl, same, differs, edited, flags)
          | inr later ↦
              let (g, gi, same, differs, edited, flags) =
                (drift_flagged_iff policy x fields).0 later in
              (g, inr gi, same, differs, edited, flags)
        ],
        λ (g, gi, same, differs, edited, flags). elim gi [
          | inl here ↦
              now_drift x f a d
                (ap (diff_field json entry existing policy) here
                  ∙ (diff_field_lem policy g).1 differs edited
                  ∙ ap on_edit flags)
                (ap (drift_entry json entry existing) here ∙ same)
          | inr later ↦
              later_drift x f a d
                ((drift_flagged_iff policy x fields).1 (g, later, same, differs, edited, flags))
        ],
      )
