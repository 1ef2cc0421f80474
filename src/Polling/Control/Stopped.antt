-- ===== src/Polling/Control/Stopped.antt =====
-- The engine after a shutdown, through whatever is called on it then.
use depsera.Prelude.{
  ℕ, String, ◌≡◌, refl, sym, subst, ap, ◌∙◌, Bool, true, false, Option, none, some, List, [], ◌∷◌,
  ◌++◌, arith,
}
use depsera.JsMap.{JsMap, get}
use depsera.JsMap.Laws.{get-empty}
use depsera.Types.{Service}
use depsera.Polling.States.{ServicePollState, PollStateManager, mark_polling, update_state, clear}
use depsera.Polling.Engine.{Engine}
use depsera.Polling.Engine.Sync.{tracked}
use depsera.Polling.Cycle.Settle.{
  PollResult, process_result, process_results, unlock, unlock_all, release_all, get_backoff, Event,
}
use depsera.Polling.Cycle.Select.{get_circuit_breaker}
use depsera.Polling.Cycle.{Cycle, begin_cycle, finish_cycle, settled, no_cycle}
use depsera.Polling.Control.{
  start_all, start_service, stop_service, restart_service, poll_now_begin, poll_now_finish,
  shutdown,
}

-- A public call, a manual poll in its two parts, a cycle that the timer begins, and the end of one
-- that began before, with what they read of the clock and of the database.
pub data Call : Type 0 where
  starts_all : ℕ → List Service → Option (List Service) → Call
  starts restarts : ℕ → Option Service → Option (List Service) → String → Call
  stops : String → Call
  manual_begins : Option Service → String → Call
  manual_ends : ℕ → String → Bool → PollResult → Call
  cycle_begins : ℕ → Option (List Service) → Call
  cycle_ends : ℕ → (String → Option PollResult) → Cycle → Call
  shuts_down : Call

-- What a cycle requests, if one begins.
abbrev requested : Option Cycle → List (String × Option String)
requested none = []
requested (some c) = c.polls

module _ (hostname_of : String → String) where
  unfoldable pub step : Engine → Call → Engine × List (String × Option String)
  step e (starts_all now active found) =
      let (e1, c) = start_all hostname_of now active found e in (e1, requested c)
  step e (starts now row found id) =
      let (e1, c) = start_service hostname_of now row found id e in (e1, requested c)
  step e (restarts now row found id) =
      let (e1, c) = restart_service hostname_of now row found id e in (e1, requested c)
  step e (stops id) = (stop_service id e, [])
  step e (manual_begins row id) = ((poll_now_begin row id e).0, [])
  step e (manual_ends now id had_state result) = ((poll_now_finish now id had_state result e).0, [])
  step e (cycle_begins now found) =
      let (e1, c) = begin_cycle hostname_of now found e in (e1, requested (some c))
  step e (cycle_ends now outcome cycle) = ((finish_cycle now outcome cycle e).0, [])
  step e shuts_down = (shutdown e, [])

  -- The engine after the calls, and what cycles have requested.
  unfoldable pub run : Engine → List Call → Engine × List (String × Option String)
  run e [] = (e, [])
  run e (c ∷ calls) =
      let (e1, polls) = step e c in let (e2, rest) = run e1 calls in (e2, polls ++ rest)

-- The flag is set, the loop does not run, and no service has a state or a poller.
record Stopped (e : Engine) : Type 0 where
  flag : e.is_shutting_down ≡ true
  loop : e.loop_running ≡ false
  states : e.state_manager.poll_states ≡ []
  idle : e.pollers ≡ []

no_state : (e : Engine) (id : String) → Stopped e → get e.state_manager.poll_states id ≡ none
no_state e id h = ap (λ (m : JsMap ServicePollState). get m id) h.states ∙ get-empty id

mark_nothing :
    (m : PollStateManager) (id : String) (b : Bool)
    → get m.poll_states id ≡ none
    → mark_polling m id b ≡ m
unfolding mark_polling update_state
mark_nothing m id b h = ground (arith, h)

unlock_nothing :
    (m : PollStateManager) (s : ServicePollState)
    → get m.poll_states s.service_id ≡ none
    → unlock m s ≡ m
unfolding unlock update_state
unlock_nothing m s missing = ground (arith, missing)

unlock_none :
    (m : PollStateManager) (states : List ServicePollState)
    → m.poll_states ≡ []
    → unlock_all m states ≡ m
unfolding unlock_all
unlock_none m [] h = refl
unlock_none m (s ∷ states) h =
    let missing =
      ap (λ (n : JsMap ServicePollState). get n s.service_id) h ∙ get-empty s.service_id in
    ap (λ n. unlock_all n states) (unlock_nothing m s missing) ∙ unlock_none m states h

settle_nothing :
    (now : ℕ) (e : Engine) (id : String) (result : PollResult)
    → get e.state_manager.poll_states id ≡ none
    → process_result now e id result ≡ (e, [])
unfolding process_result
settle_nothing now e id result missing = ground (arith, missing)

settle_none :
    (now : ℕ) (e : Engine) (results : List (String × Option PollResult))
    → Stopped e
    → (process_results now e results).0 ≡ e
unfolding process_results
settle_none now e [] h = refl
settle_none now e ((id, none) ∷ rest) h = settle_none now e rest h
settle_none now e ((id, some result) ∷ rest) h =
    ap (λ (p : Engine × List Event). (process_results now p.0 rest).0)
      (settle_nothing now e id result (no_state e id h))
    ∙ settle_none now e rest h

finish_cycle-Stopped :
    (now : ℕ) (outcome : String → Option PollResult) (c : Cycle) (e : Engine)
    → Stopped e
    → Stopped (finish_cycle now outcome c e).0
unfolding finish_cycle
finish_cycle-Stopped now outcome c e h =
    let e1 = record e { host_rate_limiter = release_all e.host_rate_limiter c.acquired } in
    let h1 : Stopped e1 = record {
      flag = h.flag;
      loop = h.loop;
      states = h.states;
      idle = h.idle;
    } in
    let settles = settle_none now e1 (settled outcome c.polls) h1 in
    subst
      (λ (e2 : Engine).
        Stopped (record e2 { state_manager = unlock_all e2.state_manager c.eligible }))
      (sym settles)
      (record {
        flag = h.flag;
        loop = h.loop;
        states =
            ap (λ (m : PollStateManager). m.poll_states)
              (unlock_none e.state_manager c.eligible h.states)
            ∙ h.states;
        idle = h.idle;
      })

stop_service-Stopped : (id : String) (e : Engine) → Stopped e → stop_service id e ≡ e
unfolding stop_service
stop_service-Stopped id e h = ground (arith, no_state e id h)

start_service-Stopped :
    (hostname_of : String → String) (now : ℕ) (row : Option Service) (found : Option (List Service))
    (id : String) (e : Engine)
    → Stopped e
    → start_service hostname_of now row found id e ≡ (e, none)
unfolding start_service
start_service-Stopped f now row found id e h = ground (arith, h.flag)

start_all-Stopped :
    (hostname_of : String → String) (now : ℕ) (active : List Service)
    (found : Option (List Service)) (e : Engine)
    → Stopped e
    → start_all hostname_of now active found e ≡ (e, none)
unfolding start_all
start_all-Stopped f now active found e h = ground (arith, h.flag)

begin_cycle-Stopped :
    (hostname_of : String → String) (now : ℕ) (found : Option (List Service)) (e : Engine)
    → Stopped e
    → begin_cycle hostname_of now found e ≡ (e, no_cycle)
unfolding begin_cycle
begin_cycle-Stopped f now found e h = ground (arith, h.flag)

poll_now_begin-Stopped :
    (row : Option Service) (id : String) (e : Engine)
    → Stopped e
    → Stopped (poll_now_begin row id e).0
unfolding poll_now_begin
poll_now_begin-Stopped row id e h =
    let on = mark_nothing e.state_manager id true (no_state e id h) in
    let off = mark_nothing e.state_manager id false (no_state e id h) in
    record {
      flag = ground (arith, h.flag);
      loop = ground (arith, h.loop);
      states = ground (arith, h.states, no_state e id h, on, off);
      idle = ground (arith, h.idle, no_state e id h);
    }

poll_now_finish-Stopped :
    (now : ℕ) (id : String) (b : Bool) (result : PollResult) (e : Engine)
    → Stopped e
    → Stopped (poll_now_finish now id b result e).0
unfolding poll_now_finish get_backoff get_circuit_breaker
poll_now_finish-Stopped now id b result e h =
    let off = mark_nothing e.state_manager id false (no_state e id h) in
    record {
      flag = ground (arith, h.flag);
      loop = ground (arith, h.loop);
      states = ground (arith, h.states, off);
      idle = ground (arith, h.idle);
    }

kept :
    {p : Engine × Option Cycle} (e : Engine)
    → Stopped e
    → p ≡ (e, none)
    → Stopped p.0 × (requested p.1 ≡ [])
kept e h same =
    subst (λ (q : Engine × Option Cycle). Stopped q.0 × (requested q.1 ≡ [])) (sym same) (h, refl)

module _ (hostname_of : String → String) where
  step-Stopped :
      (e : Engine) (call : Call)
      → Stopped e
      → Stopped (step hostname_of e call).0 × ((step hostname_of e call).1 ≡ [])
  unfolding step restart_service shutdown clear
  step-Stopped e (starts_all now active found) h =
      kept e h (start_all-Stopped hostname_of now active found e h)
  step-Stopped e (starts now row found id) h =
      kept e h (start_service-Stopped hostname_of now row found id e h)
  step-Stopped e (restarts now row found id) h = kept e h (
      ap (start_service hostname_of now row found id) (stop_service-Stopped id e h)
      ∙ start_service-Stopped hostname_of now row found id e h)
  step-Stopped e (stops id) h = (subst Stopped (sym (stop_service-Stopped id e h)) h, refl)
  step-Stopped e (manual_begins row id) h = (poll_now_begin-Stopped row id e h, refl)
  step-Stopped e (manual_ends now id b result) h =
      (poll_now_finish-Stopped now id b result e h, refl)
  step-Stopped e (cycle_begins now found) h =
      subst (λ (p : Engine × Cycle). Stopped p.0 × (p.1.polls ≡ []))
        (sym (begin_cycle-Stopped hostname_of now found e h)) (h, refl)
  step-Stopped e (cycle_ends now outcome c) h = (finish_cycle-Stopped now outcome c e h, refl)
  step-Stopped e shuts_down h =
      (record { flag = refl; loop = refl; states = refl; idle = refl }, refl)

  run-Stopped :
      (e : Engine) (calls : List Call)
      → Stopped e
      → Stopped (run hostname_of e calls).0 × ((run hostname_of e calls).1 ≡ [])
  unfolding run
  run-Stopped e [] h = (h, refl)
  run-Stopped e (c ∷ calls) h =
      let (h1, none_now) = step-Stopped e c h in
      let (h2, none_later) = run-Stopped (step hostname_of e c).0 calls h1 in
      (h2, rw (none_now, none_later) refl)

  -- After a shutdown, whatever public calls are made, whatever cycle the timer begins and whatever
  -- cycle or manual poll ends that was begun before it, no cycle requests a poll, no service is
  -- tracked, and the loop does not run. What manual polls request is not counted.
  pub stopped_forever :
      (e : Engine) (calls : List Call) (id : String)
      → let final = run hostname_of (shutdown e) calls in
        (final.1 ≡ []) × (tracked final.0 id ≡ false) × (final.0.loop_running ≡ false)
  unfolding shutdown clear
  stopped_forever e calls id =
      let (h, quiet) =
        run-Stopped (shutdown e) calls
          (record { flag = refl; loop = refl; states = refl; idle = refl }) in
      (quiet, ground (arith, no_state (run hostname_of (shutdown e) calls).0 id h), h.loop)
