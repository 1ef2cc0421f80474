-- ===== src/Examples/Aliases.antt =====
-- A sync that renames an alias, adds one, finds one that another team holds, and removes one.
use Prim.Native.String.{◌++◌ as ◌^^◌, count}
use text.Mathlib.TextLemmas.{length-append}
use depsera.Prelude.{
  ℕ, zero, suc, ◌≤◌, String, ◌≡◌, refl, ap, true, some, List, [], ◌∷◌, keep, ◌==◌, arith, eq_false,
  false,
}
use depsera.Rows.{has_key}
use depsera.Manifest.Sync.Result.{empty_summary}
use depsera.Manifest.Sync.Aliases.{
  DependencyAlias, AliasContext, AliasSync, id_of, manifest_aliases, sync_aliases,
}
use depsera.Manifest.Sync.Aliases.View.{of_others, view}
use depsera.Manifest.Sync.Aliases.Step.{Good}
use depsera.Manifest.Sync.Aliases.Refinement.{synced_view, sync_aliases_lem}

unfoldable uuid : ℕ → String
uuid zero = ""
uuid (suc n) = "u" ^^ uuid n

count-uuid : (n : ℕ) → count (uuid n) ≡ n
unfolding uuid
count-uuid zero = refl
count-uuid (suc n) = omega (arith, length-append "u" (uuid n), count-uuid n)

uuid_injective : (i j : ℕ) → uuid i ≡ uuid j → i ≡ j
uuid_injective i j e = omega (arith, count-uuid i, count-uuid j, ap count e)

abbrev row : String → String → String → String → DependencyAlias
row id alias canonical team = record {
  id = id;
  alias = alias;
  canonical_name = canonical;
  manifest_team_id = some team;
  created_at = "2025-01-01";
}

abbrev rows : List DependencyAlias
rows =
    row "" "db" "Postgres" "shop"
    ∷ row "u" "cache" "Redis" "pay"
    ∷ row "uu" "old" "Legacy" "shop"
    ∷ []

abbrev context : AliasContext
context = record {
  team_id = "shop";
  removes = true;
  now = "2026-01-01";
  uuid = uuid;
  team_exists = true;
}

abbrev before : AliasSync
before = record { rows = rows; counts = empty_summary.aliases; errors = []; next = 3 }

abbrev entries : List (String × String)
entries = ("db", "PostgreSQL") ∷ ("cache", "Valkey") ∷ ("queue", "Kafka") ∷ []

later_differs : (i j : ℕ) → i ≤ 2 → 3 ≤ j → (uuid i == uuid j) ≡ false
later_differs i j h l = eq_false (uuid i) (uuid j) (λ e. omega (arith, uuid_injective i j e, h, l))

before-Good : Good context before.rows before.next
unfolding uuid
before-Good = record {
  ids = (refl, (refl, (refl, tt)));
  aliases = (refl, (refl, (refl, tt)));
  fresh = λ j h. ground (
    arith,
    later_differs 0 j (omega arith) h,
    later_differs 1 j (omega arith) h,
    later_differs 2 j (omega arith) h,
  );
}

renamed : view "shop" (sync_aliases context entries before).rows "db" ≡ some "PostgreSQL"
unfolding sync_aliases depsera.JsMap.get manifest_aliases depsera.JsMap.set
    depsera.Manifest.Sync.Aliases.sync_alias depsera.Manifest.Sync.Aliases.index depsera.Rows.update
renamed = refl

sync_aliases_lem_example :
    ((k : String)
      → view "shop" (sync_aliases context entries before).rows k
        ≡ synced_view context (manifest_aliases [] entries) rows k)
    × (keep (of_others "shop") (sync_aliases context entries before).rows
        ≡ keep (of_others "shop") rows)
sync_aliases_lem_example = sync_aliases_lem context uuid_injective before entries before-Good
