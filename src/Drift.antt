-- ===== src/Drift.antt =====
-- server/src/stores/impl/DriftFlagStore.ts, over DriftFlag of server/src/db/types.ts. The table
-- drift_flags is the list of its rows, an UPDATE or a DELETE goes through all of them, and a query
-- with LIMIT 1 takes the first. The clock and a new identifier are arguments.
mod Row
pub mod Keys
pub mod Unique
pub mod Upsert
pub mod History
pub mod Reflag
unfoldable pub use Row.*
use depsera.Prelude.{
  ℕ, String, Bool, true, false, not, ◌&&◌, ◌||◌, Option, none, some, List, [], ◌∷◌, ◌++◌, map, keep,
  any, find, length, ◌==◌, if◌then◌else◌,
}

-- The three statuses that `resolve` takes.
pub data Resolution : Type 0 where
  dismiss accept close : Resolution

abbrev pub status_of : Resolution → DriftFlagStatus
status_of dismiss = dismissed
status_of accept = accepted
status_of close = resolved

abbrev pub mark : String → Resolution → Option String → DriftFlag → DriftFlag
mark now status user_id f = record f {
  status = status_of status;
  resolved_at = some now;
  resolved_by = user_id;
}

abbrev pub is_open_id : List String → DriftFlag → Bool
is_open_id ids f = any (λ id. f.id == id) ids && is_active f.status

-- The new table, and the rows that changed.
unfoldable pub bulk_resolve : String → List String → Resolution → Option String → Table → Table × ℕ
unfolding update_where
bulk_resolve now ids status user_id t =
    (update_where (is_open_id ids) (mark now status user_id) t, length (keep (is_open_id ids) t))

unfoldable pub resolve : String → String → Resolution → Option String → Table → Table × Bool
unfolding update_where
resolve now id status user_id t =
    (update_where (is_open_id (id ∷ [])) (mark now status user_id) t, any (is_open_id (id ∷ [])) t)

abbrev pub is_reopenable : String → DriftFlag → Bool
is_reopenable id f = f.id == id && is_dismissed f.status

unfoldable pub reopen : String → Table → Table × Bool
unfolding update_where
reopen id t = (
  update_where (is_reopenable id)
      (λ f. record f { status = pending; resolved_at = none; resolved_by = none }) t,
  any (is_reopenable id) t,
)

-- The new table, and whether there is such a row.
unfoldable pub update_detection :
    String → String → Option String → Option String → Table → Table × Bool
unfolding update_where
update_detection now id manifest current t = (
  update_where (λ f. f.id == id)
      (λ f. record f { manifest_value = manifest; current_value = current; last_detected_at = now })
      t,
  any (λ (f : DriftFlag). f.id == id) t,
)

unfoldable pub update_last_detected_at : String → String → Table → Table × Bool
unfolding update_where
update_last_detected_at now id t = (
  update_where (λ f. f.id == id) (λ f. record f { last_detected_at = now }) t,
  any (λ (f : DriftFlag). f.id == id) t,
)

-- `resolveAllForService` and `resolveAllForTeam`, by the column that they test
unfoldable pub resolve_all : String → (DriftFlag → Bool) → Table → Table × ℕ
unfolding update_where
resolve_all now concerns t = (
  update_where (λ f. concerns f && is_active f.status)
      (λ f. record f { status = resolved; resolved_at = some now }) t,
  length (keep (λ f. concerns f && is_active f.status) t),
)

abbrev pub for_service : String → DriftFlag → Bool
for_service service_id f = f.service_id == service_id

abbrev pub for_team : String → DriftFlag → Bool
for_team team_id f = f.team_id == team_id

pub data DriftAction : Type 0 where
  created updated reopened unchanged : DriftAction

-- `if (syncHistoryId) UPDATE ... SET sync_history_id = ?`
abbrev pub with_history : Option String → DriftFlag → DriftFlag
with_history none f = f
with_history (some id) f = if id == "" then f else record f { sync_history_id = some id }

-- The updates of one row that an upsert makes on a flag that it has found.
abbrev pub redetect :
    DriftFlagStatus
    → String
    → String
    → String
    → Option String
    → Option String
    → DriftFlag
    → DriftFlag × DriftAction
redetect dismissed now manifest current history stored f =
    if equals stored manifest
    then (with_history history (record f { last_detected_at = now }), unchanged)
    else (
      record f {
        status = pending;
        manifest_value = some manifest;
        current_value = some current;
        last_detected_at = now;
        resolved_at = none;
        resolved_by = none;
        sync_history_id = history;
      },
      reopened,
    )
redetect _ now manifest current history stored f = (
  with_history history (record f {
    manifest_value = some manifest;
    current_value = some current;
    last_detected_at = now;
  }),
  updated,
)

abbrev pub field_input :
    String
    → String
    → String
    → String
    → String
    → Option String
    → Option String
    → DriftFlagCreateInput
field_input team_id service_id field manifest current history config = record {
  team_id = team_id;
  service_id = service_id;
  drift_type = field_change;
  field_name = some field;
  manifest_value = some manifest;
  current_value = some current;
  sync_history_id = history;
  manifest_config_id = config;
}

abbrev pub removal_input : String → String → Option String → Option String → DriftFlagCreateInput
removal_input team_id service_id history config = record {
  team_id = team_id;
  service_id = service_id;
  drift_type = service_removal;
  field_name = none;
  manifest_value = none;
  current_value = none;
  sync_history_id = history;
  manifest_config_id = config;
}

-- `team_of` reads the team of a service; the call throws, which is `none`, if there is no service.
unfoldable pub upsert_field_drift :
    (String → Option String)
    → String
    → String
    → String
    → String
    → String
    → String
    → Option String
    → Option String
    → Table
    → Option (Table × DriftAction)
unfolding update_where create
upsert_field_drift team_of now new_id service_id field manifest current history config t =
    elim (find_active (field_of service_id field) t) [
      | none ↦ elim (team_of service_id) [
        | none ↦ none
        | some team_id ↦ some (
          create now new_id (field_input team_id service_id field manifest current history config)
              t,
          created,
        )
      ]
      | some existing ↦
          let change =
            redetect existing.status now manifest current history existing.manifest_value in
          some (update_where (λ f. f.id == existing.id) (λ f. (change f).0) t, (change existing).1)
    ]

unfoldable pub upsert_removal_drift :
    (String → Option String)
    → String
    → String
    → String
    → Option String
    → Option String
    → Table
    → Option (Table × DriftAction)
unfolding update_where create
upsert_removal_drift team_of now new_id service_id history config t =
    elim (find_active (removal_of service_id) t) [
      | none ↦ elim (team_of service_id) [
        | none ↦ none
        | some team_id ↦
            some (create now new_id (removal_input team_id service_id history config) t, created)
      ]
      | some existing ↦ some (
        update_where (λ f. f.id == existing.id)
            (λ f. with_history history (record f { last_detected_at = now })) t,
        unchanged,
      )
    ]

abbrev same_status : DriftFlagStatus → DriftFlagStatus → Bool
same_status pending pending = true
same_status dismissed dismissed = true
same_status accepted accepted = true
same_status resolved resolved = true
same_status _ _ = false

abbrev pub concerns_status : List DriftFlagStatus → DriftFlagStatus → Bool
concerns_status [] status = true
concerns_status (s ∷ statuses) status = any (λ r. same_status r status) (s ∷ statuses)

-- `before` is the comparison of texts; no statuses stand for all.
unfoldable pub delete_older_than :
    (String → String → Bool) → String → List DriftFlagStatus → Table → Table × ℕ
delete_older_than before timestamp statuses t =
    let old : DriftFlag → Bool =
      λ f. before f.created_at timestamp && concerns_status statuses f.status in
    (keep (λ f. not (old f)) t, length (keep old t))
