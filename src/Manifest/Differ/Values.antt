-- ===== src/Manifest/Differ/Values.antt =====
-- The policies and the fields of server/src/services/manifest/types.ts and ManifestDiffer.ts, and the
-- values that the differ compares.
use depsera.Prelude.{ℕ, String, Bool, true, false, Option, none, some, List, [], ◌∷◌}
use depsera.Types.{HealthEndpointFormat, default, schema, prometheus, otlp}

pub data FieldDriftPolicy : Type 0 where
  flag manifest_wins local_wins : FieldDriftPolicy

pub data RemovalPolicy : Type 0 where
  flag deactivate delete : RemovalPolicy

pub record ManifestSyncPolicy : Type 0 where
  pub on_field_drift : FieldDriftPolicy
  pub on_removal : RemovalPolicy

-- `SYNCABLE_FIELDS`
pub data SyncableField : Type 0 where
  name health_endpoint description metrics_endpoint poll_interval_ms : SyncableField
  schema_config health_endpoint_format : SyncableField

abbrev pub syncable_fields : List SyncableField
syncable_fields =
    name ∷ health_endpoint ∷ description ∷ metrics_endpoint ∷ poll_interval_ms ∷ schema_config
    ∷ health_endpoint_format ∷ []

-- A field of a JSON object that may be absent or null.
pub data JsonField (A : Type 0) : Type 0 where
  missing nulled : JsonField A
  given : A → JsonField A

-- `field ?? d`
abbrev pub field_or : {A : Type 0} → JsonField A → A → A
field_or missing d = d
field_or nulled d = d
field_or (given a) d = a

-- `field ?? null`
abbrev pub field_or_null : {A : Type 0} → JsonField A → Option A
field_or_null missing = none
field_or_null nulled = none
field_or_null (given a) = some a

abbrev pub is_nulled : {A : Type 0} → JsonField A → Bool
is_nulled nulled = true
is_nulled _ = false

-- A value of type `unknown`, as far as `normalizeToString` tells values apart.
pub data Value (Object : Type 0) : Type 0 where
  undefined null : Value Object
  text : String → Value Object
  number : ℕ → Value Object
  object : Object → Value Object

-- What the differ uses of the language's JSON and number formatting.
pub record Json : Type 1 where
  pub Object : Type 0
  pub stringify : Object → String
  pub number_text : ℕ → String
  pub parse : String → Option (SyncableField → Value Object)

abbrev pub format_text : HealthEndpointFormat → String
format_text default = "default"
format_text schema = "schema"
format_text prometheus = "prometheus"
format_text otlp = "otlp"
