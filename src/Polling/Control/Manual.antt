-- ===== src/Polling/Control/Manual.antt =====
-- Manual polls, and the wait of a shutdown.
use depsera.Prelude.{
  ◌↔◌, ◌||◌, ◌&&◌, is_some, ℕ, ◌+◌, ◌%◌, ◌≤◌, String, ◌≡◌, refl, true, false, Option, List, [], ◌∷◌,
  arith, eq_refl,
}
use depsera.JsMap.{get}
use depsera.JsMap.Laws.{get-delete}
use depsera.Types.{Service}
use depsera.Polling.Cache.{should_poll, invalidate}
use depsera.Polling.States.{mark_polling}
use depsera.Polling.Engine.{Engine}
use depsera.Polling.Engine.Sync.{state_of, tracked}
use depsera.Polling.States.Laws.{busy, busy-mark_polling}
use depsera.Polling.Cycle.Settle.{PollResult}
use depsera.Polling.Control.{being_polled, poll_now_begin, poll_now_finish, shutdown_wait, max_wait}

-- A manual poll is refused, and changes nothing, exactly when the service's lock is on; and until it
-- has ended the lock of a tracked service is on exactly if it was before or the service is found.
poll_now_begin_lem :
    (row : Option Service) (id : String) (e : Engine)
    → ((poll_now_begin row id e ≡ (e, being_polled)) ↔ (busy (state_of e id) ≡ true))
      × (busy (state_of (poll_now_begin row id e).0 id)
          ≡ (busy (state_of e id) || (tracked e id && (is_some (get e.pollers id) || is_some row))))
unfolding poll_now_begin
poll_now_begin_lem row id e = (
  (λ h. ground arith, λ h. ground arith),
  ground (
    arith,
    busy-mark_polling e.state_manager id true,
    busy-mark_polling (mark_polling e.state_manager id true) id false,
  ),
)

-- When a manual poll has finished, the lock of a tracked service is off, and the service is due at
-- once for the next cycle's cache test: the delay that a failure has added to the backoff is not
-- waited for.
poll_now_finish_lem :
    (now : ℕ) (id : String) (r : PollResult) (e : Engine) (t : ℕ)
    → (busy (state_of (poll_now_finish now id true r e).0 id) ≡ false)
      × (should_poll t (poll_now_finish now id true r e).0.poll_cache id ≡ true)
unfolding poll_now_finish should_poll invalidate
poll_now_finish_lem now id r e t = (
  ground (arith, busy-mark_polling e.state_manager id false),
  ground (arith, get-delete e.poll_cache id id, eq_refl id),
)

shutdown_wait_from :
    (waited : ℕ) (counts : List ℕ)
    → waited ≤ max_wait
    → waited % 100 ≡ 0
    → shutdown_wait waited counts ≤ max_wait
unfolding shutdown_wait
shutdown_wait_from waited [] h d = h
shutdown_wait_from waited (active ∷ counts) h d =
    ground (arith, shutdown_wait_from (waited + 100) counts)

-- A shutdown waits five seconds at most, whatever the active polls do.
shutdown_wait_bounded : (counts : List ℕ) → shutdown_wait 0 counts ≤ max_wait
shutdown_wait_bounded counts = shutdown_wait_from 0 counts (omega arith) refl
