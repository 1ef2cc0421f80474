-- ===== src/Drift/Upsert.antt =====
-- What an upsert does, by whether it finds an active flag.
use depsera.Prelude.{String, ◌≡◌, Option, none, some, ◌==◌, arith}
use depsera.Drift.{
  DriftFlag, Table, field_of, removal_of, find_active, update_where, create, field_input,
  removal_input, created, unchanged, redetect, with_history, upsert_field_drift,
  upsert_removal_drift,
}

module _ (team_of : String → Option String) (now id service : String)
    (history config : Option String) (t : Table) where
  pub removal_refused :
      find_active (removal_of service) t ≡ none
      → team_of service ≡ none
      → upsert_removal_drift team_of now id service history config t ≡ none
  unfolding upsert_removal_drift
  removal_refused free missing = ground arith

  pub removal_created :
      (team : String)
      → find_active (removal_of service) t ≡ none
      → team_of service ≡ some team
      → upsert_removal_drift team_of now id service history config t
        ≡ some (create now id (removal_input team service history config) t, created)
  unfolding upsert_removal_drift
  removal_created team free there = ground arith

  pub removal_found :
      (existing : DriftFlag)
      → find_active (removal_of service) t ≡ some existing
      → upsert_removal_drift team_of now id service history config t
        ≡ some (
          update_where
              (λ f. f.id == existing.id)
              (λ f. with_history history (record f { last_detected_at = now }))
              t,
          unchanged,
        )
  unfolding upsert_removal_drift
  removal_found existing found = ground arith

  module _ (field manifest current : String) where
    pub field_refused :
        find_active (field_of service field) t ≡ none
        → team_of service ≡ none
        → upsert_field_drift team_of now id service field manifest current history config t ≡ none
    unfolding upsert_field_drift
    field_refused free missing = ground arith

    pub field_created :
        (team : String)
        → find_active (field_of service field) t ≡ none
        → team_of service ≡ some team
        → upsert_field_drift team_of now id service field manifest current history config t
          ≡ some (
            create now id (field_input team service field manifest current history config) t,
            created,
          )
    unfolding upsert_field_drift
    field_created team free there = ground arith

    pub field_found :
        (existing : DriftFlag)
        → find_active (field_of service field) t ≡ some existing
        → let change =
            redetect existing.status now manifest current history existing.manifest_value in
          upsert_field_drift team_of now id service field manifest current history config t
          ≡ some
              (update_where (λ f. f.id == existing.id) (λ f. (change f).0) t, (change existing).1)
    unfolding upsert_field_drift
    field_found existing found = ground arith
