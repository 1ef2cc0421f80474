-- ===== src/Drift/Row.antt =====
-- The rows of the table drift_flags and the queries on it: DriftFlag of server/src/db/types.ts, and
-- the finders and `create` of server/src/stores/impl/DriftFlagStore.ts.
use depsera.Prelude.{
  String, Bool, true, false, ◌&&◌, Option, none, some, List, [], ◌∷◌, ◌++◌, find, ◌==◌,
  if◌then◌else◌,
}

pub data DriftType : Type 0 where
  field_change service_removal : DriftType

pub data DriftFlagStatus : Type 0 where
  pending dismissed accepted resolved : DriftFlagStatus

-- A row; the column manifest_config_id is not in the interface of the source.
pub record DriftFlag : Type 0 where
  pub id : String
  pub team_id : String
  pub service_id : String
  pub drift_type : DriftType
  pub field_name : Option String
  pub manifest_value : Option String
  pub current_value : Option String
  pub status : DriftFlagStatus
  pub first_detected_at : String
  pub last_detected_at : String
  pub resolved_at : Option String
  pub resolved_by : Option String
  pub sync_history_id : Option String
  pub manifest_config_id : Option String
  pub created_at : String

abbrev pub Table : Type 0
Table = List DriftFlag

-- `status IN ('pending', 'dismissed')`
abbrev pub is_active : DriftFlagStatus → Bool
is_active pending = true
is_active dismissed = true
is_active _ = false

abbrev pub is_dismissed : DriftFlagStatus → Bool
is_dismissed dismissed = true
is_dismissed _ = false

abbrev pub equals : Option String → String → Bool
equals none s = false
equals (some t) s = t == s

-- `UPDATE drift_flags SET ... WHERE ...`
unfoldable pub update_where : (DriftFlag → Bool) → (DriftFlag → DriftFlag) → Table → Table
update_where p f [] = []
update_where p f (x ∷ xs) = let rest = update_where p f xs in if p x then f x ∷ rest else x ∷ rest

-- What an active flag is about: a field of a service, or its removal.
pub data Subject : Type 0 where
  field_of : String → String → Subject
  removal_of : String → Subject

abbrev pub type_matches : Subject → DriftType → Option String → Bool
type_matches (field_of service field) field_change name = equals name field
type_matches (field_of service field) service_removal name = false
type_matches (removal_of service) field_change name = false
type_matches (removal_of service) service_removal name = true

abbrev pub service_of : Subject → String
service_of (field_of service field) = service
service_of (removal_of service) = service

unfoldable pub is_active_on : Subject → DriftFlag → Bool
is_active_on subject f =
    f.service_id == service_of subject
    && type_matches subject f.drift_type f.field_name
    && is_active f.status

-- `findActiveByServiceAndField` and `findActiveRemovalByServiceId`
abbrev pub find_active : Subject → Table → Option DriftFlag
find_active subject t = find (is_active_on subject) t

abbrev pub find_by_id : String → Table → Option DriftFlag
find_by_id id t = find (λ (f : DriftFlag). f.id == id) t

pub record DriftFlagCreateInput : Type 0 where
  pub team_id : String
  pub service_id : String
  pub drift_type : DriftType
  pub field_name : Option String
  pub manifest_value : Option String
  pub current_value : Option String
  pub sync_history_id : Option String
  pub manifest_config_id : Option String

unfoldable pub create : String → String → DriftFlagCreateInput → Table → Table
create now id input t =
    t
    ++ record {
      id = id;
      team_id = input.team_id;
      service_id = input.service_id;
      drift_type = input.drift_type;
      field_name = input.field_name;
      manifest_value = input.manifest_value;
      current_value = input.current_value;
      status = pending;
      first_detected_at = now;
      last_detected_at = now;
      resolved_at = none;
      resolved_by = none;
      sync_history_id = input.sync_history_id;
      manifest_config_id = input.manifest_config_id;
      created_at = now;
    }
      ∷ []
