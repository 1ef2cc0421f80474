-- ===== src/Polling/ErrorHistory.antt =====
-- server/src/services/polling/ErrorHistoryRecorder.ts over the table dependency_error_history, with
-- what it calls of stores/impl/ErrorHistoryStore.ts. The rows are newest first: each is recorded at a
-- later time than those before it, so the last entry of a dependency is its first row.
pub mod Dedup
use Prim.Native.Nat.{Ordering}
use Prim.Native.String.{compare}
use depsera.Prelude.{
  ℕ, suc, String, Bool, true, false, not, Option, none, some, List, [], ◌∷◌, ◌==◌, or_else,
  if◌then◌else◌,
}

pub record DependencyErrorHistory : Type 0 where
  pub id : String
  pub dependency_id : String
  pub error : Option String
  pub error_message : Option String
  pub recorded_at : String

-- The table, and the number of identifiers drawn from their source.
pub record ErrorHistory : Type 0 where
  pub entries : List DependencyErrorHistory
  pub uuid : ℕ → String
  pub next : ℕ

-- The arguments of a call.
pub record Report : Type 0 where
  pub dependency_id : String
  pub is_healthy : Bool
  pub error_json : Option String
  pub error_message : Option String
  pub timestamp : String

abbrev pub is_of : String → DependencyErrorHistory → Bool
is_of dependency_id e = e.dependency_id == dependency_id

abbrev pub is_after : String → String → Bool
is_after a b = elim (compare a b) [ Ordering.gt ↦ true | _ ↦ false ]

-- The row with the latest time; of several, the one inserted first.
abbrev later_of : DependencyErrorHistory → Option DependencyErrorHistory → DependencyErrorHistory
later_of e none = e
later_of e (some older) = if is_after e.recorded_at older.recorded_at then e else older

abbrev pub last_of : String → List DependencyErrorHistory → Option DependencyErrorHistory
last_of dependency_id [] = none
last_of dependency_id (e ∷ entries) =
    let rest = last_of dependency_id entries in
    if is_of dependency_id e then some (later_of e rest) else rest

abbrev pub get_last_entry : String → ErrorHistory → Option DependencyErrorHistory
get_last_entry dependency_id h = last_of dependency_id h.entries

-- `ErrorHistoryStore.record`
abbrev pub store_entry :
    String → Option String → Option String → String → ErrorHistory → ErrorHistory
store_entry dependency_id error message timestamp h = record h {
  entries =
      record {
        id = h.uuid h.next;
        dependency_id = dependency_id;
        error = error;
        error_message = message;
        recorded_at = timestamp;
      }
      ∷ h.entries;
  next = suc h.next;
}

abbrev is_error : Option DependencyErrorHistory → Bool
is_error none = false
is_error (some e) = elim e.error [ none ↦ false | some _ ↦ true ]

unfoldable pub handle_recovery :
    String → Option DependencyErrorHistory → String → ErrorHistory → ErrorHistory
handle_recovery dependency_id last_entry timestamp h =
    if is_error last_entry then store_entry dependency_id none none timestamp h else h

abbrev differs_from : String → Option DependencyErrorHistory → Bool
differs_from error_json none = true
differs_from error_json (some e) = elim e.error [
  | none ↦ true
  | some last ↦ not (last == error_json)
]

unfoldable pub handle_error :
    String → Option DependencyErrorHistory → String → String → String → ErrorHistory → ErrorHistory
handle_error dependency_id last_entry error_json message timestamp h =
    if differs_from error_json last_entry
    then store_entry dependency_id (some error_json) (some message) timestamp h
    else h

abbrev pub unhealthy_marker : String
unhealthy_marker = "{\"unhealthy\":true}"

-- `ErrorHistoryRecorder.record`
unfoldable pub record_error : Report → ErrorHistory → ErrorHistory
unfolding handle_recovery handle_error
record_error r h =
    let last_entry = get_last_entry r.dependency_id h in
    if r.is_healthy
    then handle_recovery r.dependency_id last_entry r.timestamp h
    else handle_error r.dependency_id last_entry (or_else r.error_json unhealthy_marker)
        (or_else r.error_message "Unhealthy") r.timestamp h
