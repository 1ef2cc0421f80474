-- ===== src/Polling/Cycle/Locks.antt =====
-- The lock `isPolling` over a poll cycle.
use depsera.Prelude.{
  ℕ, String, ◌≡◌, refl, ◌⊎◌, inl, inr, Bool, true, false, not, none, some, Option, arith, eq_iff,
  eq_refl, if◌then◌else◌, List, [], ◌∷◌, keep, nat_eq, In, ◌==◌, ap, subst, In-if, In-keep,
}
use depsera.JsMap.{get}
use depsera.Polling.States.{
  ServicePollState, PollStateManager, update_state, mark_polling, get_all_states,
}
use depsera.Polling.States.Laws.{apply_to, get-update_state}
use depsera.Polling.Engine.{Engine}
use depsera.Polling.Engine.Sync.{state_of}
use depsera.Polling.Cycle.Select.{
  select_one, select, insert_by_last_polled, sort_by_last_polled, acquire_one, acquire_all,
  Acquired,
}
use depsera.Polling.Cycle.Fairness.{In-of-acquire_one}
use depsera.Polling.Cycle.Settle.{PollResult, process_results, unlock, unlock_all, release_all}
use depsera.Polling.Cycle.{Cycle, mark_all, finish_cycle, begin_synced, settled}

-- the lock of an object is off, wherever the map still holds it
abbrev Unlocked : ServicePollState → Option ServicePollState → Type 0
Unlocked s none = Unit
Unlocked s (some t) = t.ref ≡ s.ref → t.is_polling ≡ false

-- what `unlock` writes into the object that it finds
abbrev off : ServicePollState → ServicePollState → ServicePollState
off s x = if nat_eq x.ref s.ref then record x { is_polling = false } else x

Unlocked-self :
    (s : ServicePollState) (o : Option ServicePollState) → Unlocked s (apply_to (off s) o)
Unlocked-self s none = tt
Unlocked-self s (some t) = λ e. ground arith

Unlocked-other :
    (s u : ServicePollState) (b : Bool) (o : Option ServicePollState)
    → Unlocked s o
    → Unlocked s (if b then apply_to (off u) o else o)
Unlocked-other s u true none h = tt
Unlocked-other s u true (some t) h = λ e. ground (arith, h)
Unlocked-other s u false o h = h

unlock-Unlocked :
    (m : PollStateManager) (s : ServicePollState)
    → Unlocked s (get (unlock m s).poll_states s.service_id)
unfolding unlock
unlock-Unlocked m s =
    rw (get-update_state m s.service_id s.service_id _, eq_refl s.service_id)
      (Unlocked-self s (get m.poll_states s.service_id))

unlock-keeps :
    (m : PollStateManager) (s u : ServicePollState)
    → Unlocked s (get m.poll_states s.service_id)
    → Unlocked s (get (unlock m u).poll_states s.service_id)
unfolding unlock
unlock-keeps m s u h =
    rw (get-update_state m u.service_id s.service_id _)
      (Unlocked-other s u (u.service_id == s.service_id) (get m.poll_states s.service_id) h)

unlock_all-keeps :
    (m : PollStateManager) (us : List ServicePollState) (s : ServicePollState)
    → Unlocked s (get m.poll_states s.service_id)
    → Unlocked s (get (unlock_all m us).poll_states s.service_id)
unfolding unlock_all
unlock_all-keeps m [] s h = h
unlock_all-keeps m (u ∷ us) s h = unlock_all-keeps (unlock m u) us s (unlock-keeps m s u h)

unlock_all-Unlocked :
    (m : PollStateManager) (us : List ServicePollState) (s : ServicePollState)
    → In s us
    → Unlocked s (get (unlock_all m us).poll_states s.service_id)
unfolding unlock_all
unlock_all-Unlocked m [] s i = elim i [ ]
unlock_all-Unlocked m (u ∷ us) s (inl e) = unlock_all-keeps (unlock m u) us s (
    subst (λ (v : ServicePollState). Unlocked v (get (unlock m u).poll_states v.service_id)) e
      (unlock-Unlocked m u))
unlock_all-Unlocked m (u ∷ us) s (inr i) = unlock_all-Unlocked (unlock m u) us s i

-- When a cycle has finished, the lock of every object that it polled is off, wherever the map still
-- holds that object, also if its poll was rejected.
pub finish_cycle-Unlocked :
    (now : ℕ) (outcome : String → Option PollResult) (c : Cycle) (e : Engine)
    (s t : ServicePollState)
    → In s c.eligible
    → state_of (finish_cycle now outcome c e).0 s.service_id ≡ some t
    → t.ref ≡ s.ref
    → t.is_polling ≡ false
unfolding finish_cycle
finish_cycle-Unlocked now outcome c e s t i found same =
    let e1 : Engine = record e { host_rate_limiter = release_all e.host_rate_limiter c.acquired } in
    let m = (process_results now e1 (settled outcome c.polls)).0.state_manager in
    (subst (λ o. Unlocked s o) found (unlock_all-Unlocked m c.eligible s i)) same

abbrev IsIdle : ServicePollState → Type 0
IsIdle s = s.is_polling ≡ false

In-select :
    (now : ℕ) (e : Engine) (states : List ServicePollState) (s : ServicePollState)
    → In s (select now e states).1
    → In s states
unfolding select
In-select now e [] s i = i
In-select now e (u ∷ us) s i =
    elim (In-if s (select_one now e u).1 u (select now (select_one now e u).0 us).1 i) [
      | inl (_, same) ↦ inl same
      | inr later ↦ inr (In-select now (select_one now e u).0 us s later)
    ]

In-of-insert :
    (x s : ServicePollState) (ts : List ServicePollState)
    → In x (insert_by_last_polled s ts)
    → (s ≡ x) ⊎ In x ts
unfolding insert_by_last_polled
In-of-insert x s [] i = i
In-of-insert x s (t ∷ ts) i = ground (arith, In-of-insert x s ts)

In-of-sort :
    (x : ServicePollState) (ts : List ServicePollState) → In x (sort_by_last_polled ts) → In x ts
unfolding sort_by_last_polled
In-of-sort x [] i = i
In-of-sort x (t ∷ ts) i = elim (In-of-insert x t (sort_by_last_polled ts) i) [
  | inl e ↦ inl e
  | inr j ↦ inr (In-of-sort x ts j)
]

In-of-acquire_all :
    (hostname_of : String → String) (a : Acquired) (states : List ServicePollState)
    (s : ServicePollState)
    → In s (acquire_all hostname_of a states).eligible
    → In s a.eligible ⊎ In s states
unfolding acquire_all
In-of-acquire_all f a [] s i = inl i
In-of-acquire_all f a (u ∷ us) s i = elim (In-of-acquire_all f (acquire_one f a u) us s i) [
  | inl before ↦ elim (In-of-acquire_one f a u s before) [
    | inl old ↦ inl old
    | inr (_, same) ↦ inr (inl same)
  ]
  | inr later ↦ inr (inr later)
]

-- the lock of whatever object is held is on
abbrev Locked : Option ServicePollState → Type 0
Locked none = Unit
Locked (some t) = t.is_polling ≡ true

abbrev on : ServicePollState → ServicePollState
on s = record s { is_polling = true }

Locked-by :
    (b : Bool) (o : Option ServicePollState)
    → (b ≡ true) ⊎ Locked o
    → Locked (if b then apply_to on o else o)
Locked-by true none h = tt
Locked-by true (some t) h = refl
Locked-by false o (inl e) = absurd (cc)
Locked-by false o (inr h) = h

mark-Locked :
    (m : PollStateManager) (u s : ServicePollState)
    → ((u.service_id == s.service_id) ≡ true) ⊎ Locked (get m.poll_states s.service_id)
    → Locked (get (update_state m u.service_id on).poll_states s.service_id)
mark-Locked m u s h =
    rw (get-update_state m u.service_id s.service_id on)
      (Locked-by (u.service_id == s.service_id) (get m.poll_states s.service_id) h)

mark_all-Locked :
    (m : PollStateManager) (us : List ServicePollState) (s : ServicePollState)
    → In s us ⊎ Locked (get m.poll_states s.service_id)
    → Locked (get (mark_all m us).poll_states s.service_id)
unfolding mark_all mark_polling
mark_all-Locked m [] s (inl i) = elim i [ ]
mark_all-Locked m [] s (inr h) = h
mark_all-Locked m (u ∷ us) s (inl (inl e)) = mark_all-Locked (update_state m u.service_id on) us s (
    inr (
      mark-Locked m u s (
        inl (
          ground (
            arith,
            ap (λ (v : ServicePollState). v.service_id) e,
            eq_iff u.service_id s.service_id,
          )))))
mark_all-Locked m (u ∷ us) s (inl (inr i)) =
    mark_all-Locked (update_state m u.service_id on) us s (inl i)
mark_all-Locked m (u ∷ us) s (inr h) =
    mark_all-Locked (update_state m u.service_id on) us s (inr (mark-Locked m u s (inr h)))

-- A cycle polls only services that are tracked and that no poll holds the lock of, and it takes the
-- locks of all of them.
pub begin_synced-Locked :
    (hostname_of : String → String) (now : ℕ) (e : Engine) (s t : ServicePollState)
    → In s (begin_synced hostname_of now e).1.eligible
    → state_of (begin_synced hostname_of now e).0 s.service_id ≡ some t
    → In s (get_all_states e.state_manager) × (s.is_polling ≡ false) × (t.is_polling ≡ true)
unfolding begin_synced
begin_synced-Locked f now e s t i found =
    let idle = keep (λ (u : ServicePollState). not u.is_polling) (get_all_states e.state_manager) in
    let selected = select now e idle in
    let due : In s idle = elim (In-of-acquire_all f _ (sort_by_last_polled selected.1) s i) [
      | inl none_yet ↦ elim none_yet [ ]
      | inr j ↦ In-select now e idle s (In-of-sort s selected.1 j)
    ] in
    let tracked =
      In-keep s (λ (u : ServicePollState). not u.is_polling) (get_all_states e.state_manager) due in
    (
      tracked.0,
      ground (arith, tracked.1),
      subst Locked found
          (mark_all-Locked selected.0.state_manager (begin_synced f now e).1.eligible s (inl i)),
    )
