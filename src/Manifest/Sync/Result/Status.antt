-- ===== src/Manifest/Sync/Result/Status.antt =====
-- The status and the totals of a merged result.
use depsera.Prelude.{
  ℕ, ◌+◌, ◌≡◌, refl, ap, ◌∙◌, ◌↔◌, Bool, true, false, ◌||◌, not, List, [], ◌∷◌, ◌++◌, any, length,
  length-append, arith,
}
use depsera.Manifest.Sync.Result.{
  ManifestSyncResult, SyncStatus, success, partial, failed, is_failed, not_failed, Merging,
  merge_loop, merge_results, nothing_merged, add_summary,
}

-- The sum of a count over the results.
abbrev pub total : (ManifestSyncResult → ℕ) → List ManifestSyncResult → ℕ
total count [] = 0
total count (r ∷ results) = count r + total count results

abbrev pub failed_one : ManifestSyncResult → Bool
failed_one r = is_failed r.status

abbrev pub done_one : ManifestSyncResult → Bool
done_one r = not (is_failed r.status)

abbrev pub error_count : ManifestSyncResult → ℕ
error_count r = length r.errors

not_failed_lem : (s : SyncStatus) → not_failed s ≡ not (is_failed s)
not_failed_lem success = refl
not_failed_lem partial = refl
not_failed_lem failed = refl

or_assoc : (a b c : Bool) → ((a || b) || c) ≡ (a || (b || c))
or_assoc true b c = refl
or_assoc false b c = refl

merge_loop_lem :
    (m : Merging) (results : List ManifestSyncResult)
    → ((merge_loop m results).has_failure ≡ (m.has_failure || any failed_one results))
      × ((merge_loop m results).has_success ≡ (m.has_success || any done_one results))
      × (length (merge_loop m results).errors ≡ length m.errors + total error_count results)
      × ((merge_loop m results).summary.services.created
          ≡ m.summary.services.created + total (λ r. r.summary.services.created) results)
unfolding merge_loop
merge_loop_lem m [] = (ground arith, ground arith, omega arith, omega arith)
merge_loop_lem m (r ∷ results) =
    let next : Merging = record {
      summary = add_summary m.summary r.summary;
      errors = m.errors ++ r.errors;
      warnings = m.warnings ++ r.warnings;
      changes = m.changes ++ r.changes;
      has_failure = m.has_failure || is_failed r.status;
      has_success = m.has_success || not_failed r.status;
    } in
    let rest = merge_loop_lem next results in
    (
      rest.0 ∙ or_assoc m.has_failure (is_failed r.status) (any failed_one results),
      rest.1
          ∙ ap (λ b. (m.has_success || b) || any done_one results) (not_failed_lem r.status)
          ∙ or_assoc m.has_success (not (is_failed r.status)) (any done_one results),
      omega (arith, rest.2, length-append m.errors r.errors),
      omega (arith, rest.3),
    )

-- A merged result is failed exactly if some result is and no other, and a success exactly if none is
-- failed and none has an error; and its created services are those of the results together.
pub merge_results_lem :
    (results : List ManifestSyncResult) (duration : ℕ)
    → let merged = merge_results results duration in
      ((merged.status ≡ failed)
        ↔ ((any failed_one results ≡ true) × (any done_one results ≡ false)))
      × ((merged.status ≡ success)
          ↔ ((any failed_one results ≡ false) × (total error_count results ≡ 0)))
      × (length merged.errors ≡ total error_count results)
      × (merged.summary.services.created ≡ total (λ r. r.summary.services.created) results)
unfolding merge_results
merge_results_lem results duration =
    let (failure, done, errors, created) = merge_loop_lem nothing_merged results in
    (
      (λ e. ground (arith, failure, done), λ e. ground (arith, failure, done)),
      (λ e. ground (arith, failure, done, errors), λ e. ground (arith, failure, done, errors)),
      omega (arith, errors),
      omega (arith, created),
    )
