-- ===== src/Polling/Backoff/Delays.antt =====
-- The delays that successive failures give.
use Prim.Native.Nat.pow
use native.Mathlib.Nat.{pow-suc}
use depsera.Prelude.{◌≤◌, ◌<◌, ℕ, zero, suc, ◌+◌, ◌*◌, ◌^◌, min, ◌≡◌, refl, arith, ap, ◌∙◌}
use depsera.Polling.Backoff.{BackoffConfig, ExponentialBackoff, new, get_next_delay, reset}

-- The backoff after `n` failures in a row.
unfoldable pub after : ℕ → ExponentialBackoff → ExponentialBackoff
after zero b = b
after (suc n) b = after n (get_next_delay b).0

-- the delay of the failure after `n` others
abbrev pub nth_delay : BackoffConfig → ℕ → ℕ
nth_delay c n = (get_next_delay (after n (new c))).1

after_lem :
    (n : ℕ) (b : ExponentialBackoff)
    → ((after n b).attempt ≡ n + b.attempt) × ((after n b).config ≡ b.config)
unfolding after get_next_delay
after_lem zero b = (omega arith, refl)
after_lem (suc n) b = ground (arith, after_lem n (get_next_delay b).0)

nth_delay_lem :
    (c : BackoffConfig) (n : ℕ)
    → nth_delay c n ≡ min (c.base_delay_ms * c.multiplier ^ n) c.max_delay_ms
unfolding get_next_delay new
nth_delay_lem c n = ground (arith, after_lem n (new c))

pow_grows : (m n : ℕ) → 0 < m → m ^ n ≤ m ^ suc n
pow_grows m n h = rw pow-suc (grind arith)

grows_scaled :
    (c : BackoffConfig) (n : ℕ)
    → 0 < c.multiplier
    → c.base_delay_ms * c.multiplier ^ n ≤ c.base_delay_ms * c.multiplier ^ suc n
grows_scaled c n pos = grind (arith, pow_grows c.multiplier n pos)

first_delay :
    (b : ExponentialBackoff)
    → (get_next_delay (reset b)).1 ≡ min b.config.base_delay_ms b.config.max_delay_ms
unfolding reset get_next_delay
first_delay b = ap (λ k. min k b.config.max_delay_ms) (rw pow.zero (omega arith))

reset_delay :
    (c : BackoffConfig) (n : ℕ)
    → (get_next_delay (reset (after n (new c)))).1 ≡ min c.base_delay_ms c.max_delay_ms
unfolding new
reset_delay c n =
    first_delay (after n (new c))
    ∙ ap (λ (d : BackoffConfig). min d.base_delay_ms d.max_delay_ms) (after_lem n (new c)).1

-- With a positive multiplier, the delays of successive failures never fall and never pass the cap,
-- and after a reset they start again from the base.
pub delays_lem :
    (c : BackoffConfig) (n : ℕ)
    → 0 < c.multiplier
    → (nth_delay c n ≤ nth_delay c (suc n))
      × (nth_delay c n ≤ c.max_delay_ms)
      × ((get_next_delay (reset (after n (new c)))).1 ≡ min c.base_delay_ms c.max_delay_ms)
unfolding reset
delays_lem c n pos =
    let here = nth_delay_lem c n in
    let next = nth_delay_lem c (suc n) in
    let grows = grows_scaled c n pos in
    (omega (arith, here, next, grows), omega (arith, here), reset_delay c n)
