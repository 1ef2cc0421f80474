-- ===== src/Manifest/Differ/Partition.antt =====
-- What the differ creates and removes: the whole loop over the manifest and the removal pass.
use depsera.Prelude.{
  String, ◌≡◌, refl, sym, ap, ◌∙◌, Bool, true, false, not, ◌&&◌, ◌||◌, none, some, List, [], ◌∷◌,
  ◌++◌, map, keep, any, ◌==◌, if◌then◌else◌, In, inl, inr, arith, eq_iff, eq_refl, Bool-cases,
  Option-cases, String-cases,
}
use mathlib.Core.List.{append-nil, append_assoc}
use depsera.JsMap.{JsMap, get, set, has}
use depsera.JsMap.Laws.{get-set}
use depsera.Types.{Service}
use depsera.Manifest.Differ.{
  RemovalPolicy, flag, deactivate, delete, ManifestSyncPolicy, Json, ManifestServiceEntry,
  ManifestDiffResult, managed_key, existing_by_key, is_removed, diff_existing_service,
  apply_removal_policy, Diffing, diff_entry, diff_entries, remove_services, diff_manifest,
  no_changes,
}

-- The service is managed under the key.
abbrev pub is_keyed : String → Service → Bool
is_keyed key svc = elim (managed_key svc) [ none ↦ false | some k ↦ k == key ]

has-existing_by_key :
    (m : JsMap Service) (services : List Service) (k : String)
    → has (existing_by_key m services) k ≡ (has m k || any (is_keyed k) services)
unfolding existing_by_key
has-existing_by_key m [] k = ground arith
has-existing_by_key m (svc ∷ services) k = elim (Option-cases (managed_key svc)) [
  | inl unmanaged ↦ ground (arith, has-existing_by_key m services k)
  | inr (key, managed) ↦
      ground (arith, has-existing_by_key (set m key svc) services k, get-set m key k svc)
]

-- The same policy.
abbrev pub same_policy : RemovalPolicy → RemovalPolicy → Bool
same_policy flag flag = true
same_policy deactivate deactivate = true
same_policy delete delete = true
same_policy _ _ = false

any-of-In :
    {A : Type 0} → (p : A → Bool) (a : A) (xs : List A) → In a xs → p a ≡ true → any p xs ≡ true
any-of-In p a [] i h = elim i [ ]
any-of-In p a (x ∷ xs) (inl e) h = ground (arith, ap p e)
any-of-In p a (x ∷ xs) (inr i) h = ground (arith, any-of-In p a xs i h)

keep-cong :
    {A : Type 0}
    → (p q : A → Bool) (xs : List A) → ((a : A) → In a xs → p a ≡ q a)
    → keep p xs ≡ keep q xs
keep-cong p q [] h = refl
keep-cong p q (x ∷ xs) h = ground (arith, h x (inl refl), keep-cong p q xs (λ a i. h a (inr i)))

module _ (json : Json) where
  abbrev pub is_entry : String → ManifestServiceEntry json → Bool
  is_entry key entry = entry.key == key

  -- A managed service whose key no entry of the manifest has.
  abbrev pub is_orphan : List (ManifestServiceEntry json) → Service → Bool
  is_orphan entries svc = elim (managed_key svc) [
    | none ↦ false
    | some key ↦ not (any (is_entry key) entries)
  ]

  -- The list of the result to which a policy adds the removed services.
  abbrev pub removals : RemovalPolicy → ManifestDiffResult json → List String
  removals flag r = r.removal_drift
  removals deactivate r = r.to_deactivate
  removals delete r = r.to_delete

  created-diff_entry :
      (by_key : JsMap Service) (policy : ManifestSyncPolicy) (d : Diffing json)
      (entry : ManifestServiceEntry json)
      → (diff_entry json by_key policy d entry).result.to_create
        ≡ (if has by_key entry.key then d.result.to_create else d.result.to_create ++ entry ∷ [])
  unfolding diff_entry diff_existing_service
  created-diff_entry by_key policy d entry = ground arith

  removals-diff_entry :
      (q : RemovalPolicy) (by_key : JsMap Service) (policy : ManifestSyncPolicy) (d : Diffing json)
      (entry : ManifestServiceEntry json)
      → removals q (diff_entry json by_key policy d entry).result ≡ removals q d.result
  unfolding diff_entry diff_existing_service
  removals-diff_entry flag by_key policy d entry = ground arith
  removals-diff_entry deactivate by_key policy d entry = ground arith
  removals-diff_entry delete by_key policy d entry = ground arith

  matched-diff_entry :
      (key : String) (by_key : JsMap Service) (policy : ManifestSyncPolicy) (d : Diffing json)
      (entry : ManifestServiceEntry json)
      → any (λ k. k == key) (diff_entry json by_key policy d entry).matched
        ≡ (has by_key key && is_entry key entry || any (λ k. k == key) d.matched)
  unfolding diff_entry
  matched-diff_entry key by_key policy d entry = elim (String-cases entry.key key) [
    | inl same ↦ ground (arith, eq_iff entry.key key, ap (has by_key) same)
    | inr other ↦ ground (arith, eq_iff entry.key key)
  ]

  created-diff_entries :
      (by_key : JsMap Service) (policy : ManifestSyncPolicy) (d : Diffing json)
      (entries : List (ManifestServiceEntry json))
      → (diff_entries json by_key policy d entries).result.to_create
        ≡ d.result.to_create
          ++ keep (λ (e : ManifestServiceEntry json). not (has by_key e.key)) entries
  unfolding diff_entries
  created-diff_entries by_key policy d [] = sym (append-nil d.result.to_create)
  created-diff_entries by_key policy d (entry ∷ entries) =
      let d' = diff_entry json by_key policy d entry in
      created-diff_entries by_key policy d' entries
      ∙ ground (
        arith,
        created-diff_entry by_key policy d entry,
        append_assoc d.result.to_create (entry ∷ [])
            (keep (λ (e : ManifestServiceEntry json). not (has by_key e.key)) entries),
      )

  removals-diff_entries :
      (q : RemovalPolicy) (by_key : JsMap Service) (policy : ManifestSyncPolicy) (d : Diffing json)
      (entries : List (ManifestServiceEntry json))
      → removals q (diff_entries json by_key policy d entries).result ≡ removals q d.result
  unfolding diff_entries
  removals-diff_entries q by_key policy d [] = refl
  removals-diff_entries q by_key policy d (entry ∷ entries) =
      removals-diff_entries q by_key policy (diff_entry json by_key policy d entry) entries
      ∙ removals-diff_entry q by_key policy d entry

  matched-diff_entries :
      (key : String) (by_key : JsMap Service) (policy : ManifestSyncPolicy) (d : Diffing json)
      (entries : List (ManifestServiceEntry json))
      → any (λ k. k == key) (diff_entries json by_key policy d entries).matched
        ≡ (has by_key key && any (is_entry key) entries || any (λ k. k == key) d.matched)
  unfolding diff_entries
  matched-diff_entries key by_key policy d [] = ground arith
  matched-diff_entries key by_key policy d (entry ∷ entries) = ground (
    arith,
    matched-diff_entries key by_key policy (diff_entry json by_key policy d entry) entries,
    matched-diff_entry key by_key policy d entry,
  )

  created-apply_removal_policy :
      (policy : RemovalPolicy) (r : ManifestDiffResult json) (id : String)
      → (apply_removal_policy json id policy r).to_create ≡ r.to_create
  unfolding apply_removal_policy
  created-apply_removal_policy flag r id = refl
  created-apply_removal_policy deactivate r id = refl
  created-apply_removal_policy delete r id = refl

  created-remove_services :
      (matched : List String) (policy : RemovalPolicy) (r : ManifestDiffResult json)
      (services : List Service)
      → (remove_services json matched policy r services).to_create ≡ r.to_create
  unfolding remove_services
  created-remove_services matched policy r [] = refl
  created-remove_services matched policy r (svc ∷ services) =
      let r' = if is_removed matched svc then apply_removal_policy json svc.id policy r else r in
      created-remove_services matched policy r' services
      ∙ ground (arith, created-apply_removal_policy policy r svc.id)

  removals-apply_removal_policy :
      (q policy : RemovalPolicy) (r : ManifestDiffResult json) (id : String)
      → removals q (apply_removal_policy json id policy r)
        ≡ removals q r ++ (if same_policy q policy then id ∷ [] else [])
  unfolding apply_removal_policy
  removals-apply_removal_policy flag flag r id = refl
  removals-apply_removal_policy flag deactivate r id = sym (append-nil r.removal_drift)
  removals-apply_removal_policy flag delete r id = sym (append-nil r.removal_drift)
  removals-apply_removal_policy deactivate flag r id = sym (append-nil r.to_deactivate)
  removals-apply_removal_policy deactivate deactivate r id = refl
  removals-apply_removal_policy deactivate delete r id = sym (append-nil r.to_deactivate)
  removals-apply_removal_policy delete flag r id = sym (append-nil r.to_delete)
  removals-apply_removal_policy delete deactivate r id = sym (append-nil r.to_delete)
  removals-apply_removal_policy delete delete r id = refl

  -- the identifiers of the services that a removal pass removes
  abbrev pub ids_of : (Service → Bool) → List Service → List String
  ids_of removed services = map (λ (s : Service). s.id) (keep removed services)

  removals-remove_services :
      (q policy : RemovalPolicy) (matched : List String) (r : ManifestDiffResult json)
      (services : List Service)
      → removals q (remove_services json matched policy r services)
        ≡ removals q r
          ++ (if same_policy q policy then ids_of (is_removed matched) services else [])
  unfolding remove_services
  removals-remove_services q policy matched r [] = ground (arith, append-nil (removals q r))
  removals-remove_services q policy matched r (svc ∷ services) =
      let r' = apply_removal_policy json svc.id policy r in
      let now = removals-apply_removal_policy q policy r svc.id in
      elim (Bool-cases (is_removed matched svc)) [
        | inl removed ↦ ground (
          arith,
          removals-remove_services q policy matched r' services,
          now,
          append_assoc (removals q r) (svc.id ∷ []) (ids_of (is_removed matched) services),
          append-nil (removals q r),
        )
        | inr kept ↦ ground (arith, removals-remove_services q policy matched r services)
      ]

  removals-none : (q : RemovalPolicy) → removals q (no_changes json) ≡ []
  removals-none flag = refl
  removals-none deactivate = refl
  removals-none delete = refl

  removed_lem :
      (policy : ManifestSyncPolicy) (entries : List (ManifestServiceEntry json))
      (services : List Service) (r : ManifestDiffResult json) (svc : Service)
      → In svc services
      → is_removed
          (diff_entries json
            (existing_by_key [] services)
            policy
            (record { result = r; matched = [] })
            entries).matched
          svc
        ≡ is_orphan entries svc
  unfolding is_removed
  removed_lem policy entries services r svc i = elim (Option-cases (managed_key svc)) [
    | inl unmanaged ↦ ground arith
    | inr (key, managed) ↦ ground (
      arith,
      matched-diff_entries key (existing_by_key [] services) policy
          (record { result = r; matched = [] }) entries,
      has-existing_by_key [] services key,
      any-of-In (is_keyed key) svc services i (ground (arith, eq_refl key)),
    )
  ]

  -- The differ creates exactly the entries whose key no managed service has, in the manifest's order,
  -- and puts the managed services whose key no entry has on the list of its removal policy, in their
  -- order, and nothing on the lists of the other two policies.
  pub diff_manifest_partition :
      (entries : List (ManifestServiceEntry json)) (services : List Service)
      (policy : ManifestSyncPolicy) (q : RemovalPolicy)
      → let r = diff_manifest json entries services policy in
        (r.to_create
          ≡ keep (λ (e : ManifestServiceEntry json). not (any (is_keyed e.key) services)) entries)
        × (removals q r
            ≡ (if same_policy q policy.on_removal then ids_of (is_orphan entries) services else []))
  unfolding diff_manifest get
  diff_manifest_partition entries services policy q =
      let by_key = existing_by_key [] services in
      let d : Diffing json = record { result = no_changes json; matched = [] } in
      let d' = diff_entries json by_key policy d entries in
      (
        created-remove_services d'.matched policy.on_removal d'.result services
            ∙ created-diff_entries by_key policy d entries
            ∙ keep-cong (λ (e : ManifestServiceEntry json). not (has by_key e.key))
                (λ (e : ManifestServiceEntry json). not (any (is_keyed e.key) services)) entries
                (λ e i. ap not (has-existing_by_key [] services e.key)),
        removals-remove_services q policy.on_removal d'.matched d'.result services
            ∙ ground (
              arith,
              removals-diff_entries q by_key policy d entries,
              removals-none q,
              keep-cong (is_removed d'.matched) (is_orphan entries) services
                  (removed_lem policy entries services (no_changes json)),
            ),
      )
