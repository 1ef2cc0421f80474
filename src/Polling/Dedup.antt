-- ===== src/Polling/Dedup.antt =====
-- server/src/services/polling/PollDeduplicator.ts. A promise is the number of the call that made it;
-- `settle` is the `finally` of that promise, which deletes the entry of its URL.
pub mod Sharing
use depsera.Prelude.{ℕ, suc, String, Bool, true, false, Option, none, some, []}
use depsera.JsMap.{JsMap, get, set, delete, has}

pub record PollDeduplicator : Type 0 where
  pub inflight : JsMap ℕ
  pub next_promise : ℕ

pub record Deduplicated : Type 0 where
  pub deduplicator : PollDeduplicator
  pub promise : ℕ
  pub started : Bool

-- The promise for the caller, and whether `pollFn` was called for it.
unfoldable pub deduplicate : PollDeduplicator → String → Deduplicated
deduplicate d url = elim (get d.inflight url) [
  | none ↦ record {
    deduplicator = record {
      inflight = set d.inflight url d.next_promise;
      next_promise = suc d.next_promise;
    };
    promise = d.next_promise;
    started = true;
  }
  | some existing ↦ record { deduplicator = d; promise = existing; started = false }
]

unfoldable pub settle : PollDeduplicator → String → PollDeduplicator
settle d url = record d { inflight = delete d.inflight url }

abbrev pub is_inflight : PollDeduplicator → String → Bool
is_inflight d url = has d.inflight url

unfoldable pub clear : PollDeduplicator → PollDeduplicator
clear d = record d { inflight = [] }
