-- ===== src/Examples/Errors.antt =====
-- A dependency that fails twice in the same way, recovers, and fails again; and one that is healthy.
use depsera.Prelude.{String, ◌≡◌, refl, Bool, true, false, Option, none, some, List, [], ◌∷◌}
use depsera.Polling.ErrorHistory.{ErrorHistory, Report}
use depsera.Polling.ErrorHistory.Dedup.{
  record_all, errors_of, statuses_of, newest, changes, record_all_lem,
}

abbrev no_entries : ErrorHistory
no_entries = record { entries = []; uuid = λ _. "new"; next = 0 }

abbrev report : String → String → Bool → Option String → Report
report time dependency healthy error = record {
  dependency_id = dependency;
  is_healthy = healthy;
  error_json = error;
  error_message = none;
  timestamp = time;
}

abbrev reports : List Report
reports =
    report "2026-01-05" "db" false none
    ∷ report "2026-01-04" "db" true none
    ∷ report "2026-01-03" "cache" true none
    ∷ report "2026-01-02" "db" false (some "timeout")
    ∷ report "2026-01-01" "db" false (some "timeout")
    ∷ []

abbrev history : List (Option String)
history = errors_of "db" (record_all no_entries reports).entries

three_entries : history ≡ some "{\"unhealthy\":true}" ∷ none ∷ some "timeout" ∷ []
unfolding record_all depsera.Polling.ErrorHistory.record_error
three_entries = refl

record_all_lem_example :
    (history ≡ changes (statuses_of "db" reports))
    × (newest history ≡ newest (statuses_of "db" reports))
record_all_lem_example = record_all_lem "db" no_entries reports refl refl
