-- ===== src/Polling/Cycle/Fairness.antt =====
-- Which services are passed over when a host has no slot left.
use depsera.Prelude.{
  ◌≤◌, ◌<◌, String, ◌≡◌, refl, ◌∙◌, ◌⊎◌, inl, inr, Bool, true, false, List, [], ◌∷◌, ◌++◌, arith,
  eq_iff, if◌then◌else◌, Bool-cases, In, In-append, In-append_left, In-append_right, All, subst, ap,
}
use depsera.Polling.HostLimiter.{HostRateLimiter, get_active_count, acquire}
use depsera.Polling.HostLimiter.Slots.{count-acquire, acquire_iff, max-acquire}
use depsera.Polling.States.{ServicePollState}
use depsera.Polling.Cycle.Select.{
  insert_by_last_polled, sort_by_last_polled, Acquired, acquire_one, acquire_all,
}

abbrev NotBefore : ServicePollState → ServicePollState → Type 0
NotBefore s t = s.last_polled ≤ t.last_polled

abbrev IsSorted : List ServicePollState → Type 0
IsSorted [] = Unit
IsSorted (s ∷ ts) = All (NotBefore s) ts × IsSorted ts

All-insert :
    (x s : ServicePollState) (ts : List ServicePollState)
    → x.last_polled ≤ s.last_polled
    → All (NotBefore x) ts
    → All (NotBefore x) (insert_by_last_polled s ts)
unfolding insert_by_last_polled
All-insert x s [] h hs = (h, tt)
All-insert x s (t ∷ ts) h hs = ground (arith, All-insert x s ts h)

All-weaken :
    (s t : ServicePollState) (ts : List ServicePollState)
    → s.last_polled ≤ t.last_polled
    → All (NotBefore t) ts
    → All (NotBefore s) ts
All-weaken s t [] h hs = tt
All-weaken s t (u ∷ ts) h hs = (omega arith, All-weaken s t ts h hs.1)

insert-IsSorted :
    (s : ServicePollState) (ts : List ServicePollState)
    → IsSorted ts
    → IsSorted (insert_by_last_polled s ts)
unfolding insert_by_last_polled
insert-IsSorted s [] h = (tt, tt)
insert-IsSorted s (t ∷ ts) h =
    ground (arith, All-weaken s t ts, All-insert t s ts, insert-IsSorted s ts)

sort-IsSorted : (ts : List ServicePollState) → IsSorted (sort_by_last_polled ts)
unfolding sort_by_last_polled
sort-IsSorted [] = tt
sort-IsSorted (t ∷ ts) = insert-IsSorted t (sort_by_last_polled ts) (sort-IsSorted ts)

In-insert :
    (x s : ServicePollState) (ts : List ServicePollState)
    → (s ≡ x) ⊎ In x ts
    → In x (insert_by_last_polled s ts)
unfolding insert_by_last_polled
In-insert x s [] h = h
In-insert x s (t ∷ ts) h = ground (arith, In-insert x s ts)

In-sort :
    (x : ServicePollState) (ts : List ServicePollState) → In x ts → In x (sort_by_last_polled ts)
unfolding sort_by_last_polled
In-sort x [] h = h
In-sort x (t ∷ ts) (inl e) = In-insert x t (sort_by_last_polled ts) (inl e)
In-sort x (t ∷ ts) (inr h) = In-insert x t (sort_by_last_polled ts) (inr (In-sort x ts h))

In-append_one : {A : Type 0} (t x : A) (xs : List A) → In t (xs ++ x ∷ []) → In t xs ⊎ (x ≡ t)
In-append_one t x xs i = elim (In-append t xs (x ∷ []) i) [
  | inl before ↦ inl before
  | inr (inl e) ↦ inr e
  | inr (inr i) ↦ elim i [ ]
]

module _ (hostname_of : String → String) where
  abbrev pub host : ServicePollState → String
  host s = hostname_of s.health_endpoint

  abbrev granted : Acquired → ServicePollState → Bool
  granted a s = (acquire a.limiter (host s)).1

  abbrev IsFull : Acquired → String → Type 0
  IsFull a h = a.limiter.max_concurrent_per_host ≤ get_active_count a.limiter h

  -- the accumulator with which `runPollCycle` starts
  abbrev pub start : HostRateLimiter → Acquired
  start limiter = record { limiter = limiter; eligible = []; acquired = [] }

  -- the services that a cycle polls, of those that are due
  abbrev pub taken : HostRateLimiter → List ServicePollState → List ServicePollState
  taken limiter to_poll =
      (acquire_all hostname_of (start limiter) (sort_by_last_polled to_poll)).eligible

  eligible-acquire_one :
      (a : Acquired) (s : ServicePollState)
      → (acquire_one hostname_of a s).eligible
        ≡ (if granted a s then a.eligible ++ s ∷ [] else a.eligible)
  unfolding acquire_one
  eligible-acquire_one a s = ground arith

  acquire_one-IsFull :
      (a : Acquired) (s : ServicePollState) (h : String)
      → IsFull a h
      → IsFull (acquire_one hostname_of a s) h
  unfolding acquire_one
  acquire_one-IsFull a s h full =
      ground (
        arith,
        count-acquire a.limiter (host s) h,
        max-acquire a.limiter (host s),
        eq_iff (host s) h,
      )

  In-acquire_one :
      (a : Acquired) (s t : ServicePollState)
      → In t a.eligible
      → In t (acquire_one hostname_of a s).eligible
  In-acquire_one a s t h = elim (Bool-cases (granted a s)) [
    | inl got ↦ rw (eligible-acquire_one a s, got) (In-append_left t a.eligible (s ∷ []) h)
    | inr full ↦ rw (eligible-acquire_one a s, full) h
  ]

  pub In-of-acquire_one :
      (a : Acquired) (s t : ServicePollState)
      → In t (acquire_one hostname_of a s).eligible
      → In t a.eligible ⊎ ((granted a s ≡ true) × (s ≡ t))
  In-of-acquire_one a s t h = elim (Bool-cases (granted a s)) [
    | inl got ↦ elim (In-append_one t s a.eligible (rw (eligible-acquire_one a s, got) at h)) [
      | inl before ↦ inl before
      | inr e ↦ inr (got, e)
    ]
    | inr full ↦ inl (rw (eligible-acquire_one a s, full) at h)
  ]

  -- what is eligible stays so
  In-acquire_all :
      (a : Acquired) (states : List ServicePollState) (t : ServicePollState)
      → In t a.eligible
      → In t (acquire_all hostname_of a states).eligible
  unfolding acquire_all
  In-acquire_all a [] t h = h
  In-acquire_all a (s ∷ states) t h =
      In-acquire_all (acquire_one hostname_of a s) states t (In-acquire_one a s t h)

  -- on a full host nothing more becomes eligible
  IsFull-acquire_all :
      (a : Acquired) (states : List ServicePollState) (t : ServicePollState)
      → IsFull a (host t)
      → In t (acquire_all hostname_of a states).eligible
      → In t a.eligible
  unfolding acquire_all
  IsFull-acquire_all a [] t full h = h
  IsFull-acquire_all a (s ∷ states) t full h =
      let before =
        IsFull-acquire_all (acquire_one hostname_of a s) states t
          (acquire_one-IsFull a s (host t) full) h in
      elim (In-of-acquire_one a s t before) [
        | inl old ↦ old
        | inr (got, e) ↦
            let room : get_active_count a.limiter (host s) < a.limiter.max_concurrent_per_host =
              (acquire_iff a.limiter (host s)).0 got in
            absurd (
              ground (
                arith,
                room,
                full,
                ap (λ (u : ServicePollState). get_active_count a.limiter (host u)) e,
              ))
      ]

  All-In :
      (s t : ServicePollState) (ts : List ServicePollState)
      → All (NotBefore t) ts
      → In s ts
      → t.last_polled ≤ s.last_polled
  All-In s t (u ∷ ts) h (inl e) =
      subst (λ (v : ServicePollState). t.last_polled ≤ v.last_polled) e h.0
  All-In s t (u ∷ ts) h (inr i) = All-In s t ts h.1 i
  All-In s t [] h i = elim i [ ]

  IsFull-of_refused :
      (a : Acquired) (x : ServicePollState) → granted a x ≡ false → IsFull a (host x)
  IsFull-of_refused a x refused = ground (arith, acquire_iff a.limiter (host x))

  fair_from :
      (a : Acquired) (order : List ServicePollState) (s t : ServicePollState)
      → IsSorted order
      → In s order
      → ¬ In s (acquire_all hostname_of a order).eligible
      → In t (acquire_all hostname_of a order).eligible
      → host s ≡ host t
      → In t a.eligible ⊎ (t.last_polled ≤ s.last_polled)
  unfolding acquire_all
  fair_from a [] s t sorted i out got same = elim i [ ]
  fair_from a (x ∷ xs) s t sorted (inl e) out got same = elim (Bool-cases (granted a x)) [
    | inl took ↦ absurd (
        out (
          In-acquire_all (acquire_one hostname_of a x) xs s (
            rw (eligible-acquire_one a x, took)
              (subst (λ (v : ServicePollState). In v (a.eligible ++ x ∷ [])) e
                (In-append_right x a.eligible (x ∷ []) (inl refl))))))
    | inr refused ↦
        let full : IsFull a (host x) = IsFull-of_refused a x refused in
        inl (IsFull-acquire_all a (x ∷ xs) t (subst (λ h. IsFull a h) (ap host e ∙ same) full) got)
  ]
  fair_from a (x ∷ xs) s t sorted (inr i) out got same =
      elim (fair_from (acquire_one hostname_of a x) xs s t sorted.1 i out got same) [
        | inl before ↦ elim (In-of-acquire_one a x t before) [
          | inl old ↦ inl old
          | inr (_, e) ↦ inr (
              subst (λ (v : ServicePollState). v.last_polled ≤ s.last_polled) e
                (All-In s x xs sorted.0 i))
        ]
        | inr le ↦ inr le
      ]

  -- When a cycle takes its host slots, a due service that gets none was polled no earlier than any
  -- service that gets a slot of the same host.
  pub slots_fair :
      (limiter : HostRateLimiter) (to_poll : List ServicePollState) (s t : ServicePollState)
      → In s to_poll
      → ¬ In s (taken limiter to_poll)
      → In t (taken limiter to_poll)
      → host s ≡ host t
      → t.last_polled ≤ s.last_polled
  slots_fair limiter to_poll s t i out got same =
      elim (fair_from (start limiter) (sort_by_last_polled to_poll) s t (sort-IsSorted to_poll)
        (In-sort s to_poll i) out got same) [ inl none_yet ↦ elim none_yet [ ] | inr le ↦ le ]
