-- ===== src/Kafka/Consumer/Holding.antt =====
-- What a consumer holds, and how a step of its pool keeps it steady.
use enterprise_middleware_go.Prelude.{
  ℕ, ◌+◌, ◌≤◌, ◌≡◌, refl, Bool, true, false, not, ◌&&◌, ◌||◌, List, [], ◌∷◌, ◌++◌, eqb,
}
use enterprise_middleware_go.Pool.Frame.{Frame}
use enterprise_middleware_go.Pool.{
  Outcome, next, blocked, panicked, WorkerPool, Event, step, is_orderly, IsReachable, stepped,
}
use enterprise_middleware_go.Pool.Counting.{count}
use enterprise_middleware_go.Pool.Invariant.{step-IsSafe_reachable}
use enterprise_middleware_go.Pool.Sound.{IsSafe}
use enterprise_middleware_go.Kafka.Consumer.{
  Position, submitting, sending_on, committing, returned, AuditConsumer, within,
}

-- The message that the goroutine of Start has fetched and not yet submitted.
abbrev pub in_hand : {T : Type 0} → Position T → List T
in_hand (submitting t) = t ∷ []
in_hand _ = []

-- The message of a Submit that is at its send.
abbrev pub at_send : {T : Type 0} → Position T → List T
at_send (sending_on t) = t ∷ []
at_send _ = []

abbrev pub is_returned : {T : Type 0} → Position T → Bool
is_returned returned = true
is_returned _ = false

-- The message that the goroutine of Start has fetched and not yet committed.
abbrev pub underway : {T : Type 0} → Position T → List T
underway (submitting t) = t ∷ []
underway (sending_on t) = t ∷ []
underway (committing t) = t ∷ []
underway _ = []

-- The pool is used in order, no fetched message is lost before the pool, and each one is committed
-- at most once.
pub record IsSteady {T : Type 0} (n : ℕ) (c : AuditConsumer T) : Type 0 where
  pub pooled : IsReachable n c.pool
  pub passed_on : c.fetched ≡ c.pool.submitted ++ in_hand c.position
  pub one_caller : c.pool.sending ≡ at_send c.position
  pub still_open : is_returned c.position || (eqb c.pool.waited 0 && not c.pool.closed) ≡ true
  pub settled :
      (q : T → Bool) → count q c.committed + count q (underway c.position) ≤ count q c.fetched

-- The outcome is no panic, and keeps the consumer steady.
abbrev pub IsFine : {T : Type 0} → ℕ → Outcome (AuditConsumer T) → Type 0
IsFine n (next c) = IsSteady n c
IsFine n blocked = Unit
IsFine n panicked = ⊥

pub within-IsFine :
    {T : Type 0} (n : ℕ) (p : WorkerPool T) (op : Event T)
    (R : WorkerPool T → WorkerPool T → Type 0) (f : WorkerPool T → AuditConsumer T)
    → IsReachable n p
    → is_orderly op p ≡ true
    → Frame R p (step op p)
    → ((p' : WorkerPool T) → IsReachable n p' → R p p' → IsSteady n (f p'))
    → IsFine n (within (step op p) f)
within-IsFine {T = T} n p op R f before orderly framed keeps =
    go (step op p) refl (step-IsSafe_reachable n p op before orderly) framed
  where
    go :
        (o : Outcome (WorkerPool T))
        → step op p ≡ o
        → IsSafe n o
        → Frame R p o
        → IsFine n (within o f)
    go (next p') e _ r = keeps p' (stepped op p p' before orderly e) r
    go blocked _ _ _ = tt
    go panicked _ h _ = h
