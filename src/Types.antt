-- ===== src/Types.antt =====
-- Rows of the database: server/src/db/types.ts. `T | null` is `Option T`; a SQLite boolean is the
-- number 0 or 1 that the row holds.
use depsera.Prelude.{ℕ, String, Bool, Option}

pub data UserRole : Type 0 where
  admin user : UserRole

pub record User : Type 0 where
  pub id : String
  pub email : String
  pub name : String
  pub oidc_subject : Option String
  pub password_hash : Option String
  pub role : UserRole
  pub is_active : ℕ
  pub created_at : String
  pub updated_at : String

pub data TeamMemberRole : Type 0 where
  lead member : TeamMemberRole

pub record TeamMember : Type 0 where
  pub team_id : String
  pub user_id : String
  pub role : TeamMemberRole
  pub created_at : String

pub data HealthEndpointFormat : Type 0 where
  default schema prometheus otlp : HealthEndpointFormat

abbrev pub is_otlp : HealthEndpointFormat → Bool
is_otlp otlp = Bool.true
is_otlp _ = Bool.false

pub record Service : Type 0 where
  pub id : String
  pub name : String
  pub team_id : String
  pub health_endpoint : String
  pub metrics_endpoint : Option String
  pub schema_config : Option String
  pub poll_interval_ms : ℕ
  pub is_active : ℕ
  pub is_external : ℕ
  pub description : Option String
  pub last_poll_success : Option ℕ
  pub last_poll_error : Option String
  pub poll_warnings : Option String
  pub manifest_key : Option String
  pub manifest_managed : ℕ
  pub health_endpoint_format : HealthEndpointFormat
  pub manifest_config_id : Option String
  pub manifest_last_synced_values : Option String
  pub created_at : String
  pub updated_at : String

pub data DiscoverySource : Type 0 where
  manual otlp_metric otlp_trace : DiscoverySource

pub record Dependency : Type 0 where
  pub id : String
  pub service_id : String
  pub name : String
  pub canonical_name : Option String
  pub description : Option String
  pub impact : Option String
  pub type : String
  pub healthy : Option ℕ
  pub health_state : Option ℕ
  pub health_code : Option ℕ
  pub latency_ms : Option ℕ
  pub contact : Option String
  pub contact_override : Option String
  pub impact_override : Option String
  pub check_details : Option String
  pub error : Option String
  pub error_message : Option String
  pub discovery_source : DiscoverySource
  pub user_display_name : Option String
  pub user_description : Option String
  pub user_impact : Option String
  pub skipped : ℕ
  pub last_checked : Option String
  pub last_status_change : Option String
  pub created_at : String
  pub updated_at : String

pub record DependencyCanonicalOverride : Type 0 where
  pub id : String
  pub canonical_name : String
  pub team_id : Option String
  pub contact_override : Option String
  pub impact_override : Option String
  pub manifest_managed : ℕ
  pub created_at : String
  pub updated_at : String
  pub updated_by : Option String

pub data AlertChannelType : Type 0 where
  slack webhook : AlertChannelType

pub data AlertSeverityFilter : Type 0 where
  only_critical only_warning all_severities : AlertSeverityFilter

pub data AlertStatus : Type 0 where
  sent failed suppressed muted : AlertStatus

pub record AlertChannel : Type 0 where
  pub id : String
  pub team_id : String
  pub channel_type : AlertChannelType
  pub config : String
  pub is_active : ℕ
  pub created_at : String
  pub updated_at : String

pub record AlertRule : Type 0 where
  pub id : String
  pub team_id : String
  pub severity_filter : AlertSeverityFilter
  pub is_active : ℕ
  pub use_custom_thresholds : ℕ
  pub cooldown_minutes : Option ℕ
  pub rate_limit_per_hour : Option ℕ
  pub alert_delay_minutes : Option ℕ
  pub created_at : String
  pub updated_at : String
