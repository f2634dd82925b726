-- ===== src/Kafka/Consumer/Closing.antt =====
-- What Close of a consumer waits for.
use enterprise_middleware_go.Prelude.{ℕ, ◌≤◌, ◌≡◌, ◌∙◌, ap, refl, sym, Bool, true, [], ◌++◌, arith}
use mathlib.Core.Path.{subst}
use mathlib.Core.List.{append-nil}
use enterprise_middleware_go.Pool.Counting.{count}
use enterprise_middleware_go.Pool.Progress.{AllHandled, closed-AllHandled}
use enterprise_middleware_go.Kafka.Consumer.{
  Position, fetching, submitting, sending_on, committing, returned, AuditConsumer, Turn, turn,
  is_proper, IsServing,
}
use enterprise_middleware_go.Kafka.Consumer.Steady.{turn-IsFine, serving-IsSteady}
use enterprise_middleware_go.Kafka.Consumer.Holding.{IsFine, in_hand, is_returned}

-- A consumer whose Close begins once, and after the goroutine of Start has ended, never panics: the
-- goroutine submits to a pool that is open, and Close closes it once. Such a use of the consumer is
-- an orderly use of its pool.
pub turn-IsFine_serving :
    {T : Type 0} (n : ℕ) (c : AuditConsumer T) (op : Turn T)
    → IsServing n c
    → is_proper op c ≡ true
    → IsFine n (turn op c)
turn-IsFine_serving n c op before proper = turn-IsFine n c (serving-IsSteady n c before) op proper

submitted_all :
    {T : Type 0} (c : AuditConsumer T) (at : Position T)
    → c.position ≡ at
    → is_returned c.position ≡ true
    → in_hand c.position ≡ []
submitted_all c returned e _ = ap in_hand e
submitted_all c fetching e h = absurd (ground (arith, ap is_returned e, h))
submitted_all c (submitting t) e h = absurd (ground (arith, ap is_returned e, h))
submitted_all c (sending_on t) e h = absurd (ground (arith, ap is_returned e, h))
submitted_all c (committing t) e h = absurd (ground (arith, ap is_returned e, h))

-- When Close, begun after the goroutine of Start has ended, has closed the pool, the handler was
-- called for every message that the reader gave, as often as it gave it, and for no other; and none
-- was committed more often than it was fetched.
pub closed-AllHandled_fetched :
    {T : Type 0} (n : ℕ) (c : AuditConsumer T)
    → IsServing n c
    → c.pool.closed ≡ true
    → AllHandled c.fetched c.pool × ((q : T → Bool) → count q c.committed ≤ count q c.fetched)
closed-AllHandled_fetched n c before closed =
    let x = serving-IsSteady n c before in
    let gone : is_returned c.position ≡ true = ground (arith, x.still_open, closed) in
    let all : c.fetched ≡ c.pool.submitted =
      x.passed_on
      ∙ ap (λ ts. c.pool.submitted ++ ts) (submitted_all c c.position refl gone)
      ∙ append-nil c.pool.submitted in
    (
      subst (λ ts. AllHandled ts c.pool) (sym all) (closed-AllHandled n c.pool x.pooled closed),
      λ q. omega (arith, x.settled q),
    )
