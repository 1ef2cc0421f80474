-- ===== src/Examples/Associations.antt =====
-- A manifest that keeps one association of the orders and no longer has another.
use depsera.Prelude.{String, ◌≡◌, refl, true, none, some, [], ◌∷◌, map}
use depsera.Types.{default}
use depsera.Manifest.Sync.Associations.{
  DependencyAssociation, ManifestAssociationEntry, AssociationContext, AssociationSync,
  association_id_of, sync_associations, own_key,
}
use depsera.Examples.Data.{service, orders, db}

abbrev context : AssociationContext
context = record {
  team_id = "shop";
  removes = true;
  now = "";
  uuid = λ n. "new";
  teams = record { id = "shop"; key = some "team" } ∷ [];
  services = orders ∷ service "pay" default ∷ [];
  dependencies =
      record db { id = "d"; service_id = "orders"; name = "postgres"; canonical_name = none } ∷ [];
}

abbrev association : String → String → DependencyAssociation
association id linked = record {
  id = id;
  dependency_id = "d";
  linked_service_id = linked;
  association_type = "database";
  is_auto_suggested = 0;
  is_dismissed = 0;
  manifest_managed = 1;
  created_at = "";
}

abbrev listed : ManifestAssociationEntry
listed = record {
  service_key = "orders";
  dependency_name = "postgres";
  linked_service_key = "team/pay";
  association_type = "database";
}

abbrev before : AssociationSync
before = record {
  rows = association "a1" "pay" ∷ association "a2" "orders" ∷ [];
  counts = record { created = 0; removed = 0; unchanged = 0 };
  next = 0;
}

rows_after : map association_id_of (sync_associations context (listed ∷ []) before).rows ≡ "a1" ∷ []
unfolding sync_associations own_key depsera.JsMap.get depsera.JsMap.set
rows_after = refl
