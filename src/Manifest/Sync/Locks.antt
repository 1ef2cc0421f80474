-- ===== src/Manifest/Sync/Locks.antt =====
-- The concurrency control of server/src/services/manifest/ManifestSyncService.ts: the lock of each
-- config, the cooldown of manual syncs, and `syncManifest` around the pipeline that it awaits.
pub mod Exclusion
use depsera.Prelude.{
  ℕ, ◌+◌, ◌-◌, String, Bool, true, false, Option, none, some, List, [], ◌∷◌, ◌==◌, max, nat_eq, ltb,
  leb, if◌then◌else◌, any,
}
use depsera.JsMap.{JsMap, get, set, delete}

abbrev pub stale_lock_timeout_ms : ℕ
stale_lock_timeout_ms = 300000

abbrev pub manual_sync_cooldown_ms : ℕ
manual_sync_cooldown_ms = 60000

-- A lock is its `acquiredAt`.
pub record SyncState : Type 0 where
  pub locks : JsMap ℕ
  pub last_manual_sync : JsMap ℕ
  pub active_syncs : ℕ

-- `none` is allowed, `some` is refused for that many milliseconds. A time of 0 is falsy.
unfoldable pub can_manual_sync : ℕ → SyncState → String → Option ℕ
can_manual_sync now s config_id = elim (get s.last_manual_sync config_id) [
  | none ↦ none
  | some last_sync ↦
      if nat_eq last_sync 0
      then none
      else if leb (last_sync + manual_sync_cooldown_ms) now
      then none
      else some (last_sync + manual_sync_cooldown_ms - now)
]

abbrev retry_of : Option ℕ → ℕ
retry_of none = 0
retry_of (some retry) = retry

unfoldable pub max_retry : ℕ → SyncState → List String → ℕ
max_retry now s [] = 0
max_retry now s (id ∷ ids) = max (retry_of (can_manual_sync now s id)) (max_retry now s ids)

-- `config_ids` are the configs of the team.
unfoldable pub can_manual_sync_team : ℕ → SyncState → List String → Option ℕ
unfolding max_retry
can_manual_sync_team now s config_ids =
    if nat_eq (max_retry now s config_ids) 0 then none else some (max_retry now s config_ids)

-- The new state, since a stale lock is dropped, and the answer.
unfoldable pub is_syncing_config : ℕ → SyncState → String → SyncState × Bool
is_syncing_config now s config_id = elim (get s.locks config_id) [
  | none ↦ (s, false)
  | some acquired_at ↦
      if ltb (acquired_at + stale_lock_timeout_ms) now
      then (record s { locks = delete s.locks config_id }, false)
      else (s, true)
]

unfoldable pub acquire_lock : ℕ → SyncState → String → SyncState × Bool
unfolding is_syncing_config
acquire_lock now s config_id =
    let (s1, syncing) = is_syncing_config now s config_id in
    if syncing then (s1, false) else (record s1 { locks = set s1.locks config_id now }, true)

unfoldable pub release_lock : SyncState → String → SyncState
release_lock s config_id = record s { locks = delete s.locks config_id }

pub data TriggerType : Type 0 where
  manual scheduled : TriggerType

abbrev is_manual : TriggerType → Bool
is_manual manual = true
is_manual scheduled = false

-- What `syncManifest` reads of the config's row.
pub record ConfigRow : Type 0 where
  pub id : String
  pub is_enabled : ℕ

-- Why `syncManifest` returns before its `try`, or that it goes on.
pub data Begin : Type 0 where
  config_not_found sync_disabled in_progress started : Begin

unfoldable pub begin_sync : ℕ → TriggerType → Option ConfigRow → SyncState → SyncState × Begin
unfolding acquire_lock
begin_sync now trigger found s = elim found [
  | none ↦ (s, config_not_found)
  | some config ↦
      let (s1, acquired) = acquire_lock now s config.id in
      if nat_eq config.is_enabled 0
      then (s, sync_disabled)
      else if acquired
      then (
        record s1 {
          active_syncs = s1.active_syncs + 1;
          last_manual_sync =
              if is_manual trigger
              then set s1.last_manual_sync config.id now
              else s1.last_manual_sync;
        },
        started,
      )
      else (s1, in_progress)
]

-- The `finally`, which runs however the pipeline ends.
unfoldable pub end_sync : String → SyncState → SyncState
unfolding release_lock
end_sync config_id s =
    let s1 = release_lock s config_id in record s1 { active_syncs = s1.active_syncs - 1 }
