-- ===== src/Examples/Flags.antt =====
-- A flag that was dismissed.
use depsera.Prelude.{◌≤◌, String, ◌≡◌, refl, Option, none, some, List, [], ◌∷◌, arith}
use depsera.Drift.{
  DriftFlag, field_change, dismissed, Table, field_of, find_active, is_active_on, DriftAction,
  dismiss, removal_input, create, update_where, update_last_detected_at, upsert_field_drift,
}
use depsera.Drift.Unique.{count}
use depsera.Drift.History
use depsera.Drift.History.{Call, create_one, see_one, field_drift, resolve_one, at_most_one_active}
use depsera.Drift.Reflag.{status_again, reflag_lem}

abbrev shop_of : String → Option String
shop_of service = some "shop"

abbrev calls : List Call
calls =
    create_one "0" "f0" (removal_input "shop" "carts" none none)
    ∷ see_one "1" "f0"
    ∷ field_drift shop_of "1" "f1" "orders" "name" "Orders" "Shop" none none
    ∷ resolve_one "2" "f1" dismiss none
    ∷ []

at_most_one_active_example : count (field_of "orders" "name") (History.run [] calls) ≤ 1
unfolding History.step create update_where update_last_detected_at
at_most_one_active_example =
    at_most_one_active (field_of "orders" "name") [] calls tt
      ((refl, (λ own service kind. refl)), (tt, (refl, (tt, tt)))) (omega arith)

abbrev flag : DriftFlag
flag = record {
  id = "f1";
  team_id = "shop";
  service_id = "orders";
  drift_type = field_change;
  field_name = some "name";
  manifest_value = some "Orders";
  current_value = some "Shop";
  status = dismissed;
  first_detected_at = "1";
  last_detected_at = "1";
  resolved_at = some "2";
  resolved_by = none;
  sync_history_id = none;
  manifest_config_id = none;
  created_at = "1";
}

reflag_lem_example :
    (u : Table) × (action : DriftAction) × (f : DriftFlag) × (upsert_field_drift shop_of "3" "f2"
        "orders" "name" "Orders" "Shop" none none
        (flag ∷ [])
      ≡ some (u, action))
    × (find_active (field_of "orders" "name") u ≡ some f)
    × (f.id ≡ "f1")
    × (f.status ≡ status_again flag "Orders")
unfolding is_active_on
reflag_lem_example =
    reflag_lem shop_of "3" "f2" "orders" "name" "Orders" "Shop" none none (flag ∷ []) flag
      (refl, tt) refl
