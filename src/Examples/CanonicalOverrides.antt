-- ===== src/Examples/CanonicalOverrides.antt =====
-- Syncs of the overrides of a team, by a user and by the schedule.
use depsera.Prelude.{ℕ, String, ◌≡◌, refl, true, Option, none, some, [], ◌∷◌, keep, ◌==◌}
use depsera.Types.{DependencyCanonicalOverride}
use depsera.Manifest.Sync.Result.{empty_summary}
use depsera.Manifest.Sync.Overrides.{
  ManifestCanonicalOverrideEntry, OverrideContext, OverrideSync, manifest_overrides,
  sync_canonical_overrides,
}
use depsera.Manifest.Sync.Overrides.Rows.{not_of}
use depsera.Manifest.Sync.Overrides.Entries.{shown}
use depsera.Manifest.Sync.Overrides.Refinement.{
  synced_shown, sync_canonical_overrides_lem, scheduled_overrides_refused,
}

-- An object is its text.
abbrev context : Option String → OverrideContext String
context user = record {
  team_id = "shop";
  removes = true;
  triggered_by = user;
  team_exists = true;
  user_exists = λ id. id == "ada";
  stringify = λ contact. contact;
  now = "2026-01-01";
  uuid = λ _. "new";
}

abbrev override : String → ℕ → String → DependencyCanonicalOverride
override name managed impact = record {
  id = name;
  canonical_name = name;
  team_id = some "shop";
  contact_override = none;
  impact_override = some impact;
  manifest_managed = managed;
  created_at = "2025-01-01";
  updated_at = "2025-01-01";
  updated_by = some "ada";
}

abbrev before : OverrideSync
before = record {
  overrides =
      override "Postgres" 1 "high" ∷ override "Redis" 0 "low" ∷ override "Kafka" 1 "low" ∷ [];
  counts = empty_summary.overrides;
  errors = [];
  next = 0;
}

abbrev entry : ManifestCanonicalOverrideEntry String
entry = record { canonical_name = "Postgres"; contact = some "{}"; impact = some "critical" }

sync_canonical_overrides_lem_example :
    ((k : String)
      → shown "shop"
          (sync_canonical_overrides (context (some "ada")) (entry ∷ []) before).overrides
          k
        ≡ synced_shown
            (context (some "ada"))
            (manifest_overrides [] (entry ∷ []))
            before.overrides
            k)
    × (keep
          (not_of "shop")
          (sync_canonical_overrides (context (some "ada")) (entry ∷ []) before).overrides
        ≡ keep (not_of "shop") before.overrides)
sync_canonical_overrides_lem_example =
    sync_canonical_overrides_lem (context (some "ada")) (entry ∷ []) before
      (refl, (refl, (refl, tt)))

scheduled_overrides_refused_example :
    shown "shop" (sync_canonical_overrides (context none) (entry ∷ []) before).overrides "Postgres"
    ≡ shown "shop" before.overrides "Postgres"
unfolding manifest_overrides depsera.JsMap.get depsera.JsMap.set
scheduled_overrides_refused_example =
    scheduled_overrides_refused (context none) (entry ∷ []) before "Postgres" entry
      (refl, (refl, (refl, tt))) refl refl refl
