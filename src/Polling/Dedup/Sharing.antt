-- ===== src/Polling/Dedup/Sharing.antt =====
-- One request for an endpoint at a time.
use depsera.Prelude.{
  String, ◌≡◌, ◌≢◌, true, false, List, [], ◌∷◌, Never, arith, eq_refl, if◌then◌else◌,
}
use depsera.JsMap.Laws.{get-delete}
use depsera.Polling.Dedup.{PollDeduplicator, deduplicate, settle, clear, is_inflight}

-- What may happen to the deduplicator: a call for a URL, the end of the poll of one, or `clear`.
pub data Action : Type 0 where
  call : String → Action
  ends : String → Action
  clears : Action

unfoldable pub run : PollDeduplicator → List Action → PollDeduplicator
run d [] = d
run d (call url ∷ rest) = run (deduplicate d url).deduplicator rest
run d (ends url ∷ rest) = run (settle d url) rest
run d (clears ∷ rest) = run (clear d) rest

abbrev pub KeepsRunning : String → Action → Type 0
KeepsRunning url (call other) = Unit
KeepsRunning url (ends other) = url ≢ other
KeepsRunning url clears = Never

-- A call starts a poll exactly when none is in flight for its URL, so the first call after a poll
-- has ended starts a new one.
poll_restarts :
    (d : PollDeduplicator) (url : String)
    → ((deduplicate d url).started ≡ (if is_inflight d url then false else true))
      × ((deduplicate (settle d url) url).started ≡ true)
      × ((deduplicate (settle d url) url).promise ≡ d.next_promise)
unfolding deduplicate settle
poll_restarts d url = (
  ground arith,
  ground (arith, get-delete d.inflight url url, eq_refl url),
  ground (arith, get-delete d.inflight url url, eq_refl url),
)
