-- ===== src/Alerts/Flap.antt =====
-- server/src/services/alerts/FlapProtector.ts: the time of the last alert for each key.
use depsera.Prelude.{ℕ, ◌+◌, String, Bool, false, none, some, ltb, nat_eq, if◌then◌else◌}
use depsera.JsMap.{JsMap, get, set}

abbrev pub FlapProtector : Type 0
FlapProtector = JsMap ℕ

-- `now - last < cooldown`, without a subtraction that could pass below 0
unfoldable pub is_suppressed : ℕ → FlapProtector → String → ℕ → Bool
is_suppressed now f key cooldown_ms =
    if nat_eq cooldown_ms 0
    then false
    else elim (get f key) [ none ↦ false | some last_time ↦ ltb now (last_time + cooldown_ms) ]

unfoldable pub record_alert : ℕ → FlapProtector → String → FlapProtector
record_alert now f key = set f key now
