-- ===== src/Retry.antt =====
-- pkg/retry/retry.go. `W` is the state of the world that the retried function, the random source
-- and the wait act on; `E` is Go's error without nil.
pub mod Outcome
mod Tests
use enterprise_middleware_go.Prelude.{ℕ, zero, suc, ◌+◌, ◌*◌, ◌^◌, Option, none, some}
use enterprise_middleware_go.Clock.{Duration, millisecond}

-- rand.Intn(n), and the select between ctx.Done() and the timer: an error if the context ends first.
pub record Waiting (W E : Type 0) : Type 0 where
  pub intn : ℕ → W → ℕ × W
  pub wait : Duration → W → Option E × W

-- math.Pow(2, i) * 100ms; the attempts of the program are few, so nothing wraps.
unfoldable pub backoff : ℕ → Duration
backoff i = 2 ^ i * 100 * millisecond

module _ {W E : Type 0} (waiting : Waiting W E) (fn : W → Option E × W) where
  open waiting use {intn, wait}

  -- The wait between two attempts.
  unfoldable pub pause : ℕ → W → Option E × W
  pause i w = let (jitter, w') = intn 100 w in wait (backoff i + jitter * millisecond) w'

  -- The loop: `left` attempts are left, `i` were made, and `err` is the variable `err`.
  unfoldable pub attempts_from : ℕ → ℕ → Option E → W → Option E × W
  attempts_from zero i err w = (err, w)
  attempts_from (suc left) i err w =
      let (result, w₁) = fn w in
      elim result [
        | none ↦ (none, w₁)
        | some e ↦
            let (ended, w₂) = pause i w₁ in
            elim ended [ some c ↦ (some c, w₂) | none ↦ attempts_from left (suc i) (some e) w₂ ]
      ]

  -- WithBackoff
  unfoldable pub with_backoff : ℕ → W → Option E × W
  unfolding attempts_from
  with_backoff attempts w = attempts_from attempts 0 none w
