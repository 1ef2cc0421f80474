-- ===== src/Polling/Cache.antt =====
-- server/src/services/polling/PollCache.ts. An entry is its `expiresAt`.
use depsera.Prelude.{ℕ, ◌+◌, String, Bool, true, none, some, leb}
use depsera.JsMap.{JsMap, get, set, delete}

abbrev pub PollCache : Type 0
PollCache = JsMap ℕ

unfoldable pub should_poll : ℕ → PollCache → String → Bool
should_poll now c service_id = elim (get c service_id) [
  | none ↦ true
  | some expires_at ↦ leb expires_at now
]

unfoldable pub mark_polled : ℕ → PollCache → String → ℕ → PollCache
mark_polled now c service_id ttl_ms = set c service_id (now + ttl_ms)

-- `invalidate` and `remove` have one body.
unfoldable pub invalidate : PollCache → String → PollCache
invalidate c service_id = delete c service_id
