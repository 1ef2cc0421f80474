-- ===== src/Polling/Cycle/Overlap.antt =====
-- Poll cycles that overlap: the timer starts one every five seconds, finished or not.
use depsera.Prelude.{ℕ, ◌+◌, String, ◌≡◌, Option, List, [], ◌∷◌, ◌++◌, arith}
use depsera.Types.{Service}
use depsera.Polling.Engine.{Engine}
use depsera.Polling.Cycle.Settle.{PollResult}
use depsera.Polling.Cycle.{Cycle, begin_cycle, finish_cycle}
use depsera.Polling.Cycle.Slots.{held, active_on, active_on-begin_cycle, active_on-finish_cycle}

-- The slots that the outstanding cycles hold on a host.
abbrev pub held_by : List Cycle → String → ℕ
held_by [] h = 0
held_by (c ∷ cs) h = held c.acquired h + held_by cs h

held_by-append :
    (cs ds : List Cycle) (h : String) → held_by (cs ++ ds) h ≡ held_by cs h + held_by ds h
held_by-append [] ds h = omega arith
held_by-append (c ∷ cs) ds h = omega (arith, held_by-append cs ds h)

-- The engines that can be reached, with the cycles that have begun and not finished. A cycle may
-- begin at any time and any outstanding one may finish; calls that leave the limiter alone may run
-- in between.
pub data Reach (hostname_of : String → String) : Engine → List Cycle → Type 0 where
  start : {e : Engine} → ((h : String) → active_on e h ≡ 0) → Reach hostname_of e []
  begin :
      {e : Engine} {cs : List Cycle} (now : ℕ) (found : Option (List Service))
      → Reach hostname_of e cs
      → Reach hostname_of
          (begin_cycle hostname_of now found e).0
          ((begin_cycle hostname_of now found e).1 ∷ cs)
  finish :
      {e : Engine} (now : ℕ) (outcome : String → Option PollResult) (cs : List Cycle) (c : Cycle)
      (ds : List Cycle)
      → Reach hostname_of e (cs ++ c ∷ ds)
      → Reach hostname_of (finish_cycle now outcome c e).0 (cs ++ ds)
  other :
      {e e' : Engine} {cs : List Cycle}
      → e'.host_rate_limiter ≡ e.host_rate_limiter
      → Reach hostname_of e cs
      → Reach hostname_of e' cs

-- From an engine without active polls, and as long as no other call touches the host limiter, the
-- active count of each host is the number of slots that the outstanding cycles hold on it, however
-- cycles overlap and in whatever order they finish: no slot is leaked or given back twice.
pub slots_conserved :
    (hostname_of : String → String) {e : Engine} {cs : List Cycle} (h : String)
    → Reach hostname_of e cs
    → active_on e h ≡ held_by cs h
slots_conserved f h (start zero_counts) = zero_counts h
slots_conserved f h (begin {e} {cs} now found r) =
    omega (arith, slots_conserved f h r, active_on-begin_cycle f now found e h)
slots_conserved f h (finish {e} now outcome cs c ds r) = omega (
  arith,
  slots_conserved f h r,
  active_on-finish_cycle now outcome c e h,
  held_by-append cs (c ∷ ds) h,
  held_by-append cs ds h,
)
slots_conserved f h (other {e} {e'} same r) = cc (slots_conserved f h r)
