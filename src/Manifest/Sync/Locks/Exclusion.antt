-- ===== src/Manifest/Sync/Locks/Exclusion.antt =====
-- Syncs of one config at a time.
use depsera.Prelude.{
  ℕ, ◌+◌, ◌≤◌, ◌<◌, String, ◌≡◌, ◌≢◌, sym, false, some, List, [], ◌∷◌, ◌++◌, arith, eq_refl,
  eq_false, ◌-◌, subst, length-append, ◌==◌, All, length, if◌then◌else◌,
}
use depsera.JsMap.{get, set, delete}
use depsera.JsMap.Laws.{get-set, get-delete}
use depsera.Manifest.Sync.Locks.{
  SyncState, TriggerType, ConfigRow, started, scheduled, stale_lock_timeout_ms, is_syncing_config,
  begin_sync, end_sync,
}

-- A sync whose pipeline runs: its config and the time at which it got the lock.
pub record Run : Type 0 where
  pub config_id : String
  pub since : ℕ

abbrev pub NotOf : String → Run → Type 0
NotOf id r = r.config_id ≢ id

-- The states that can be reached with the syncs that run. A sync may begin while none of those that
-- run has held its lock for more than the timeout, and any sync that runs may end.
pub data Reach : SyncState → List Run → Type 0 where
  idle : {s : SyncState} → s.locks ≡ [] → s.active_syncs ≡ 0 → Reach s []
  begin :
      {s : SyncState} {rs : List Run} (now : ℕ) (trigger : TriggerType) (config : ConfigRow)
      → Reach s rs
      → All (λ (r : Run). now ≤ r.since + stale_lock_timeout_ms) rs
      → (begin_sync now trigger (some config) s).1 ≡ started
      → Reach
          (begin_sync now trigger (some config) s).0
          (record { config_id = config.id; since = now } ∷ rs)
  finish :
      {s : SyncState} (before : List Run) (r : Run) (after : List Run)
      → Reach s (before ++ r ∷ after)
      → Reach (end_sync r.config_id s) (before ++ after)

abbrev pub Apart : List Run → Type 0
Apart [] = Unit
Apart (r ∷ rs) = All (NotOf r.config_id) rs × Apart rs

-- Each sync that runs holds the lock of its config since it began, and no two are of one config.
record Inv (s : SyncState) (rs : List Run) : Type 0 where
  held : All (λ (r : Run). get s.locks r.config_id ≡ some r.since) rs
  apart : Apart rs
  counted : s.active_syncs ≡ length rs

begun :
    (now : ℕ) (trigger : TriggerType) (config : ConfigRow) (s : SyncState)
    → (begin_sync now trigger (some config) s).1 ≡ started
    → ((is_syncing_config now s config.id).1 ≡ false)
      × ((k : String)
          → get (begin_sync now trigger (some config) s).0.locks k
            ≡ (if config.id == k then some now else get s.locks k))
      × ((begin_sync now trigger (some config) s).0.active_syncs ≡ s.active_syncs + 1)
unfolding begin_sync is_syncing_config
begun now trigger config s e = (
  ground (arith),
  λ k. ground (
    arith,
    get-set s.locks config.id k now,
    get-set (delete s.locks config.id) config.id k now,
    get-delete s.locks config.id k,
  ),
  ground (arith),
)

fresh_of_begun :
    (now : ℕ) (id : String) (s : SyncState) (r : Run)
    → (is_syncing_config now s id).1 ≡ false
    → get s.locks r.config_id ≡ some r.since
    → now ≤ r.since + stale_lock_timeout_ms
    → r.config_id ≢ id
unfolding is_syncing_config
fresh_of_begun now id s r free held young same =
    ground (arith, subst (λ i. get s.locks i ≡ some r.since) same held)

abbrev Held : SyncState → Run → Type 0
Held s r = get s.locks r.config_id ≡ some r.since

-- The runs before a new one keep their locks, and are of other configs.
kept_by_begin :
    (now : ℕ) (trigger : TriggerType) (config : ConfigRow) (s : SyncState) (rs : List Run)
    → (begin_sync now trigger (some config) s).1 ≡ started
    → All (λ (r : Run). now ≤ r.since + stale_lock_timeout_ms) rs
    → All (Held s) rs
    → All (Held (begin_sync now trigger (some config) s).0) rs × All (NotOf config.id) rs
kept_by_begin now trigger config s [] e young held = (tt, tt)
kept_by_begin now trigger config s (r ∷ rs) e (y, young) (h, held) =
    let (free, locks, active) = begun now trigger config s e in
    let other = fresh_of_begun now config.id s r free h y in
    let rest = kept_by_begin now trigger config s rs e young held in
    (
      (
        ground
            (arith, locks r.config_id, eq_false config.id r.config_id (λ same. other (sym same))),
        rest.0,
      ),
      (other, rest.1),
    )

All-remove :
    {A : Type 0}
    → (P : A → Type 0) (before : List A) (a : A) (after : List A) → All P (before ++ a ∷ after)
    → All P (before ++ after) × P a
All-remove P [] a after h = (h.1, h.0)
All-remove P (b ∷ before) a after h =
    let rest = All-remove P before a after h.1 in ((h.0, rest.0), rest.1)

Apart-remove :
    (before : List Run) (r : Run) (after : List Run)
    → Apart (before ++ r ∷ after)
    → Apart (before ++ after) × All (NotOf r.config_id) (before ++ after)
Apart-remove [] r after h = (h.1, h.0)
Apart-remove (b ∷ before) r after h =
    let rest = Apart-remove before r after h.1 in
    let here = All-remove (NotOf b.config_id) before r after h.0 in
    ((here.0, rest.0), (λ same. here.1 (sym same), rest.1))

Held-end_sync :
    (id : String) (s : SyncState) (rs : List Run)
    → All (NotOf id) rs
    → All (Held s) rs
    → All (Held (end_sync id s)) rs
unfolding end_sync
Held-end_sync id s [] others held = tt
Held-end_sync id s (r ∷ rs) (o, others) (h, held) = (
  ground (arith, get-delete s.locks id r.config_id, eq_false id r.config_id (λ same. o (sym same))),
  Held-end_sync id s rs others held,
)

active-end_sync : (id : String) (s : SyncState) → (end_sync id s).active_syncs ≡ s.active_syncs - 1
unfolding end_sync
active-end_sync id s = ground (arith)

Inv-of-Reach : {s : SyncState} {rs : List Run} → Reach s rs → Inv s rs
Inv-of-Reach (idle none_held none_active) = record { held = tt; apart = tt; counted = none_active }
Inv-of-Reach (begin {s} {rs} now trigger config reach young e) =
    let h = Inv-of-Reach reach in
    let (free, locks, active) = begun now trigger config s e in
    let kept = kept_by_begin now trigger config s rs e young h.held in
    record {
      held = (ground (arith, locks config.id, eq_refl config.id), kept.0);
      apart = (kept.1, h.apart);
      counted = omega (arith, active, h.counted);
    }
Inv-of-Reach (finish {s} before r after reach) =
    let h = Inv-of-Reach reach in
    let rest = Apart-remove before r after h.apart in
    record {
      held =
          Held-end_sync r.config_id s (before ++ after) rest.1
            (All-remove (Held s) before r after h.held).0;
      apart = rest.0;
      counted = omega (
        arith,
        active-end_sync r.config_id s,
        h.counted,
        length-append before (r ∷ after),
        length-append before after,
      );
    }

-- As long as no sync runs longer than the lock's timeout of five minutes while another begins, no
-- two syncs of one config run at once, and `active_syncs` is the number of those that run.
pub syncs-Apart :
    {s : SyncState} {rs : List Run} → Reach s rs → Apart rs × (s.active_syncs ≡ length rs)
syncs-Apart reach = ((Inv-of-Reach reach).apart, (Inv-of-Reach reach).counted)

-- The end of a sync that ran past the timeout drops the lock of the sync that began after it, so a
-- third sync of the config begins while the second one runs.
pub third_begins :
    (s : SyncState) (config : ConfigRow) (first second third : ℕ)
    → 0 < config.is_enabled
    → get s.locks config.id ≡ some first
    → first + stale_lock_timeout_ms < second
    → let s2 = begin_sync second scheduled (some config) s in
      (s2.1 ≡ started)
      × ((begin_sync third scheduled (some config) (end_sync config.id s2.0)).1 ≡ started)
unfolding begin_sync end_sync is_syncing_config
third_begins s config first second third enabled locked stale = (
  ground (arith),
  ground (
    arith,
    get-delete (set (delete s.locks config.id) config.id second) config.id config.id,
    eq_refl config.id,
  ),
)
