-- ===== src/Drift/History.antt =====
-- Any calls of the store, one after the other.
use depsera.Prelude.{
  ◌≤◌, String, ◌≡◌, refl, inl, inr, Bool-cases, ◌==◌, Bool, true, false, not, ◌&&◌, Option, none,
  some, List, [], ◌∷◌, arith, Option-cases,
}
use depsera.Drift.{
  DriftFlag, DriftFlagStatus, Table, Subject, field_of, removal_of, pending, dismissed, accepted,
  resolved, is_active, find_active, is_active_on, Resolution, bulk_resolve, resolve, reopen,
  resolve_all, upsert_field_drift, upsert_removal_drift, delete_older_than, create, mark,
  is_open_id, is_reopenable, concerns_status, redetect, with_history, equals, update_detection,
  update_last_detected_at, DriftFlagCreateInput, service_of, type_matches,
}
use depsera.Drift.Upsert.{
  removal_refused, removal_created, removal_found, field_refused, field_created, field_found,
}
use depsera.Drift.Keys.{has_id, UniqueIds, UniqueIds-keep}
use depsera.Drift.Unique.{
  Sound, count, Sound-update_where, Sound-append_one, Sound-append_free, new_subject, active_kept,
  row_active, field_subject, removal_subject, count-keep,
}

-- A call of the store, with what it reads of the clock and of other tables.
pub data Call : Type 0 where
  resolve_one : String → String → Resolution → Option String → Call
  resolve_many : String → List String → Resolution → Option String → Call
  resolve_those : String → (DriftFlag → Bool) → Call
  reopen_one : String → Call
  create_one : String → String → DriftFlagCreateInput → Call
  detect_one : String → String → Option String → Option String → Call
  see_one : String → String → Call
  delete_old : (String → String → Bool) → String → List DriftFlagStatus → Call
  field_drift :
      (String → Option String)
      → String
      → String
      → String
      → String
      → String
      → String
      → Option String
      → Option String
      → Call
  removal_drift :
      (String → Option String) → String → String → String → Option String → Option String → Call

-- A call that throws leaves the table as it was.
abbrev table_of : {A : Type 0} → Table → Option (Table × A) → Table
table_of t none = t
table_of t (some (u, a)) = u

unfoldable pub step : Table → Call → Table
unfolding create update_detection update_last_detected_at resolve bulk_resolve resolve_all reopen
    delete_older_than upsert_field_drift upsert_removal_drift
step t (resolve_one now id status user_id) = (resolve now id status user_id t).0
step t (resolve_many now ids status user_id) = (bulk_resolve now ids status user_id t).0
step t (resolve_those now concerns) = (resolve_all now concerns t).0
step t (reopen_one id) = (reopen id t).0
step t (create_one now id input) = create now id input t
step t (detect_one now id manifest current) = (update_detection now id manifest current t).0
step t (see_one now id) = (update_last_detected_at now id t).0
step t (delete_old before timestamp statuses) = (delete_older_than before timestamp statuses t).0
step t (field_drift team_of now id service field manifest current history config) =
    table_of t (upsert_field_drift team_of now id service field manifest current history config t)
step t (removal_drift team_of now id service history config) =
    table_of t (upsert_removal_drift team_of now id service history config t)

unfoldable pub run : Table → List Call → Table
run t [] = t
run t (c ∷ calls) = run (step t c) calls

-- No flag is active about what a new one is about.
abbrev pub NoneActive : Table → DriftFlagCreateInput → Type 0
NoneActive t input =
    (own : Subject)
    → service_of own ≡ input.service_id
    → type_matches own input.drift_type input.field_name ≡ true
    → find_active own t ≡ none

-- An upsert or a creation gets an identifier that no row has; and a creation, which does not look for
-- an active flag, is called where there is none.
abbrev pub Fresh : Table → Call → Type 0
Fresh t (field_drift team_of now id service field manifest current history config) =
    has_id id t ≡ false
Fresh t (removal_drift team_of now id service history config) = has_id id t ≡ false
Fresh t (create_one now id input) = (has_id id t ≡ false) × NoneActive t input
Fresh t _ = Unit

abbrev pub AllFresh : Table → List Call → Type 0
AllFresh t [] = Unit
AllFresh t (c ∷ calls) = Fresh t c × AllFresh (step t c) calls

-- The columns that tell what a flag is about.
abbrev pub SameSubject : DriftFlag → DriftFlag → Type 0
SameSubject g f =
    (g.id ≡ f.id)
    × (g.service_id ≡ f.service_id)
    × (g.drift_type ≡ f.drift_type)
    × (g.field_name ≡ f.field_name)

with_history_keeps :
    (history : Option String) (f : DriftFlag) → SameSubject (with_history history f) f
with_history_keeps none f = (refl, refl, refl, refl)
with_history_keeps (some id) f = elim (Bool-cases (id == "")) [
  | inl empty ↦ rw empty (refl, refl, refl, refl)
  | inr given ↦ rw given (refl, refl, refl, refl)
]

updated_keeps :
    (now manifest current : String) (history : Option String) (f : DriftFlag)
    → SameSubject
        (with_history history (record f {
          manifest_value = some manifest;
          current_value = some current;
          last_detected_at = now;
        }))
        f
updated_keeps now manifest current history f = with_history_keeps history _

pub redetect_keeps :
    (status : DriftFlagStatus) (now manifest current : String) (history stored : Option String)
    (f : DriftFlag)
    → SameSubject (redetect status now manifest current history stored f).0 f
redetect_keeps pending now manifest current history stored f =
    updated_keeps now manifest current history f
redetect_keeps accepted now manifest current history stored f =
    updated_keeps now manifest current history f
redetect_keeps resolved now manifest current history stored f =
    updated_keeps now manifest current history f
redetect_keeps dismissed now manifest current history stored f =
    elim (Bool-cases (equals stored manifest)) [
      | inl same ↦ rw same (with_history_keeps history (record f { last_detected_at = now }))
      | inr other ↦ rw other (refl, refl, refl, refl)
    ]

Sound-upsert_removal :
    (s : Subject) (t : Table) (team_of : String → Option String) (now id service : String)
    (history config : Option String)
    → has_id id t ≡ false
    → Sound s t
    → Sound s (table_of t (upsert_removal_drift team_of now id service history config t))
unfolding create
Sound-upsert_removal s t team_of now id service history config fresh h =
    elim (Option-cases (find_active (removal_of service) t)) [
      | inl free ↦ elim (Option-cases (team_of service)) [
        | inl missing ↦ rw (removal_refused team_of now id service history config t free missing) h
        | inr (team, there) ↦
            rw (removal_created team_of now id service history config t team free there)
              (Sound-append_one s (removal_of service) t _ free (removal_subject s _ refl) fresh h)
      ]
      | inr (existing, found) ↦
          let kept =
            λ (f : DriftFlag). with_history_keeps history (record f { last_detected_at = now }) in
          rw (removal_found team_of now id service history config t existing found) (
            Sound-update_where s (λ f. f.id == existing.id)
              (λ f. with_history history (record f { last_detected_at = now })) t (λ f. (kept f).0)
              (λ f i same after.
                active_kept s f (with_history history (record f { last_detected_at = now }))
                  (kept f).1 (kept f).2 (kept f).3
                  (row_active (removal_of service) existing f t h.ids found i same) after)
              h)
    ]

Sound-upsert_field :
    (s : Subject) (t : Table) (team_of : String → Option String)
    (now id service field manifest current : String) (history config : Option String)
    → has_id id t ≡ false
    → Sound s t
    → Sound s (
        table_of t
          (upsert_field_drift team_of now id service field manifest current history config t))
unfolding create
Sound-upsert_field s t team_of now id service field manifest current history config fresh h =
    elim (Option-cases (find_active (field_of service field) t)) [
      | inl free ↦ elim (Option-cases (team_of service)) [
        | inl missing ↦
            rw
              (field_refused team_of now id service history config t field manifest current free
                missing)
              h
        | inr (team, there) ↦
            rw
              (field_created team_of now id service history config t field manifest current team
                free there)
              (Sound-append_one s (field_of service field) t _ free
                (field_subject s _ field refl refl) fresh h)
      ]
      | inr (existing, found) ↦
          let change =
            redetect existing.status now manifest current history existing.manifest_value in
          let kept =
            redetect_keeps existing.status now manifest current history existing.manifest_value in
          rw
            (field_found team_of now id service history config t field manifest current existing
              found)
            (Sound-update_where s (λ f. f.id == existing.id) (λ f. (change f).0) t (λ f. (kept f).0)
              (λ f i same after.
                active_kept s f (change f).0 (kept f).1 (kept f).2 (kept f).3
                  (row_active (field_of service field) existing f t h.ids found i same) after)
              h)
    ]

same_subject :
    (s : Subject) (f g : DriftFlag)
    → g.service_id ≡ f.service_id
    → g.drift_type ≡ f.drift_type
    → g.field_name ≡ f.field_name
    → g.status ≡ f.status
    → is_active_on s g ≡ true
    → is_active_on s f ≡ true
unfolding is_active_on
same_subject s f g a b c d after = ground arith

Sound-step : (s : Subject) (t : Table) (c : Call) → Fresh t c → Sound s t → Sound s (step t c)
unfolding step create update_detection update_last_detected_at
Sound-step s t (resolve_one now id status user_id) fresh h =
    Sound-update_where s (is_open_id (id ∷ [])) (mark now status user_id) t (λ f. refl)
      (λ f i chosen after.
        active_kept s f (mark now status user_id f) refl refl refl (ground (arith, chosen)) after)
      h
Sound-step s t (resolve_many now ids status user_id) fresh h =
    Sound-update_where s (is_open_id ids) (mark now status user_id) t (λ f. refl)
      (λ f i chosen after.
        active_kept s f (mark now status user_id f) refl refl refl (ground (arith, chosen)) after)
      h
Sound-step s t (resolve_those now concerns) fresh h =
    let close_flag = λ (f : DriftFlag). record f { status = resolved; resolved_at = some now } in
    Sound-update_where s (λ f. concerns f && is_active f.status) close_flag t (λ f. refl)
      (λ f i chosen after.
        active_kept s f (close_flag f) refl refl refl (ground (arith, chosen)) after)
      h
Sound-step s t (reopen_one id) fresh h =
    let open_flag =
      λ (f : DriftFlag). record f { status = pending; resolved_at = none; resolved_by = none } in
    Sound-update_where s (is_reopenable id) open_flag t (λ f. refl)
      (λ f i chosen after.
        active_kept s f (open_flag f) refl refl refl (ground (arith, chosen)) after)
      h
Sound-step s t (create_one now id input) fresh h =
    Sound-append_free s t _ (λ a. let (service, kind) = new_subject s _ a in fresh.1 s service kind)
      fresh.0 h
Sound-step s t (detect_one now id manifest current) fresh h =
    let detect = λ (f : DriftFlag). record f {
      manifest_value = manifest;
      current_value = current;
      last_detected_at = now;
    } in
    Sound-update_where s (λ f. f.id == id) detect t (λ f. refl)
      (λ f i chosen after. same_subject s f (detect f) refl refl refl refl after) h
Sound-step s t (see_one now id) fresh h =
    let see = λ (f : DriftFlag). record f { last_detected_at = now } in
    Sound-update_where s (λ f. f.id == id) see t (λ f. refl)
      (λ f i chosen after. same_subject s f (see f) refl refl refl refl after) h
Sound-step s t (delete_old before timestamp statuses) fresh h =
    let stays =
      λ (f : DriftFlag). not (before f.created_at timestamp && concerns_status statuses f.status) in
    record {
      ids = UniqueIds-keep stays t h.ids;
      single = omega (arith, h.single, count-keep s stays t);
    }
Sound-step s t (field_drift team_of now id service field manifest current history config) fresh h =
    Sound-upsert_field s t team_of now id service field manifest current history config fresh h
Sound-step s t (removal_drift team_of now id service history config) fresh h =
    Sound-upsert_removal s t team_of now id service history config fresh h

Sound-run :
    (s : Subject) (t : Table) (calls : List Call)
    → AllFresh t calls
    → Sound s t
    → Sound s (run t calls)
unfolding run
Sound-run s t [] fresh h = h
Sound-run s t (c ∷ calls) fresh h =
    Sound-run s (step t c) calls fresh.1 (Sound-step s t c fresh.0 h)

-- If identifiers are unique, each upsert and each direct creation gets a new one, and a direct
-- creation is called only where no flag is active about its subject, then through any sequence of the
-- store's writes a field of a service, or its removal, that has at most one active flag never gets a
-- second one.
pub at_most_one_active :
    (s : Subject) (t : Table) (calls : List Call)
    → UniqueIds t
    → AllFresh t calls
    → count s t ≤ 1
    → count s (run t calls) ≤ 1
at_most_one_active s t calls ids fresh most =
    (Sound-run s t calls fresh (record { ids = ids; single = most })).single
