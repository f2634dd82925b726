-- ===== src/Retry/Tests.antt =====
-- A function that fails twice and then succeeds: the state counts its calls.
use enterprise_middleware_go.Prelude.{
  ℕ, ◌+◌, ◌≤◌, ◌≡◌, ◌⊎◌, refl, Option, none, some, String, arith, ltb, if◌then◌else◌,
}
use enterprise_middleware_go.Retry.{Waiting, pause, attempts_from, with_backoff}
use enterprise_middleware_go.Retry.Outcome.{EndsInSuccess, with_backoff-success, with_backoff-calls}

abbrev no_wait : Waiting ℕ String
no_wait = record { intn = λ _ w. (0, w); wait = λ _ w. (none, w) }

abbrev third_time : ℕ → Option String × ℕ
third_time w = (if ltb w 2 then some "unavailable" else none, w + 1)

with_backoff-success_run :
    (◌≡◌ {A = ℕ} 3 0) ⊎ EndsInSuccess no_wait third_time (with_backoff no_wait third_time 3 0).1
with_backoff-success_run =
    with_backoff-success no_wait third_time 3 0 (unfold with_backoff attempts_from pause in refl)

with_backoff-calls_example : (with_backoff no_wait third_time 3 0).1 ≤ 3
with_backoff-calls_example =
    with_backoff-calls no_wait third_time (λ w. w) (λ w. omega arith)
      (λ i w. unfold pause in omega arith) 3 0
