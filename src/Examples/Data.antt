-- ===== src/Examples/Data.antt =====
-- Rows, states and events that the examples share.
use depsera.Prelude.{ℕ, String, true, false, Option, none, some, [], ◌∷◌}
use depsera.Types.{
  Dependency, manual, Service, HealthEndpointFormat, default, otlp, AlertChannel, slack, AlertRule,
  all_severities,
}
use depsera.Polling.States.{ServicePollState, fresh_state}
use depsera.Polling.Engine.{Engine}
use depsera.Polling.Cycle.Settle.{PollResult}

abbrev pub service : String → HealthEndpointFormat → Service
service id format = record {
  id = id;
  name = id;
  team_id = "shop";
  health_endpoint = id;
  metrics_endpoint = none;
  schema_config = none;
  poll_interval_ms = 30000;
  is_active = 1;
  is_external = 0;
  description = none;
  last_poll_success = none;
  last_poll_error = none;
  poll_warnings = none;
  manifest_key = some id;
  manifest_managed = 1;
  health_endpoint_format = format;
  manifest_config_id = none;
  manifest_last_synced_values = none;
  created_at = "";
  updated_at = "";
}

abbrev pub orders : Service
orders = service "orders" default

abbrev pub traces : Service
traces = service "traces" otlp

abbrev pub idle : Engine
idle = record {
  state_manager = record { poll_states = []; next_ref = 0 };
  pollers = [];
  circuit_breakers = [];
  backoffs = [];
  poll_cache = [];
  host_rate_limiter = record { active_counts = []; max_concurrent_per_host = 3 };
  is_shutting_down = false;
  loop_running = true;
}

abbrev pub orders_state : ServicePollState
orders_state = fresh_state 0 orders

-- An engine that tracks one service.
abbrev pub tracking : Engine
tracking = record idle {
  state_manager = record { poll_states = ("orders", orders_state) ∷ []; next_ref = 1 };
  pollers = ("orders", orders) ∷ [];
}

abbrev pub failed_poll : PollResult
failed_poll = record {
  success = false;
  dependencies_updated = 0;
  status_changes = [];
  error = some "HTTP 500";
  warnings = none;
  latency_ms = 12;
}

abbrev pub channel : AlertChannel
channel = record {
  id = "chat";
  team_id = "shop";
  channel_type = slack;
  config = "";
  is_active = 1;
  created_at = "";
  updated_at = "";
}

abbrev pub rule : Option ℕ → AlertRule
rule delay_minutes = record {
  id = "rule";
  team_id = "shop";
  severity_filter = all_severities;
  is_active = 1;
  use_custom_thresholds = 0;
  cooldown_minutes = none;
  rate_limit_per_hour = none;
  alert_delay_minutes = delay_minutes;
  created_at = "";
  updated_at = "";
}

abbrev pub db : Dependency
db = record {
  id = "d1";
  service_id = "orders";
  name = "orders-db";
  canonical_name = some "PostgreSQL";
  description = none;
  impact = none;
  type = "database";
  healthy = some 1;
  health_state = some 0;
  health_code = some 200;
  latency_ms = some 3;
  contact = none;
  contact_override = none;
  impact_override = none;
  check_details = none;
  error = none;
  error_message = none;
  discovery_source = manual;
  user_display_name = none;
  user_description = none;
  user_impact = none;
  skipped = 0;
  last_checked = none;
  last_status_change = none;
  created_at = "";
  updated_at = "";
}
