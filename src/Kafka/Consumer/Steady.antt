-- ===== src/Kafka/Consumer/Steady.antt =====
-- A consumer that is closed after Start has ended keeps to the pool's rules: the invariant of a
-- proper schedule.
use mathlib.Core.Path.{subst}
use enterprise_middleware_go.Prelude.{ℕ, ◌≡◌, ◌∙◌, ap, refl, sym, true, ◌++◌, arith}
use enterprise_middleware_go.Pool.Frame.{
  Frame, SameCallers, SameStage, Closed, work_receive-Frame, work_done-Frame, shutdown_wait-Frame,
  shutdown_close-Frame,
}
use enterprise_middleware_go.Pool.{
  shutdown_close, Event, receiving, finishing, waiting, closing, step, is_orderly, fresh,
}
use enterprise_middleware_go.Kafka.Consumer.{
  Position, fetching, submitting, sending_on, committing, returned, AuditConsumer,
  new_audit_consumer, within, on_pool, Turn, fetches, submits, commits, receives, finishes, waits,
  closes, turn, is_proper, IsServing, started, turned,
}
use enterprise_middleware_go.Kafka.Consumer.Holding.{
  in_hand, is_returned, IsSteady, IsFine, within-IsFine,
}
use enterprise_middleware_go.Kafka.Consumer.Loop.{fetch-IsFine, submit-IsFine, commit-IsFine}

module _ {T : Type 0} (n : ℕ) (c : AuditConsumer T) (x : IsSteady n c) where
  worker-IsFine :
      (op : Event T)
      → is_orderly op c.pool ≡ true
      → Frame SameStage c.pool (step op c.pool)
      → IsFine n (within (step op c.pool) (λ p. record c { pool = p }))
  worker-IsFine op orderly framed =
      within-IsFine n c.pool op SameStage _ x.pooled orderly framed
        (λ p' after ((same, callers), waited, closed). record {
          pooled = after;
          passed_on = x.passed_on ∙ ap (λ ts. ts ++ in_hand c.position) (sym same);
          one_caller = callers ∙ x.one_caller;
          still_open = rw (waited, closed) x.still_open;
          settled = x.settled;
        })

  -- A step of Shutdown once Start's goroutine is gone.
  shutdown-IsFine :
      (op : Event T)
      → is_orderly op c.pool ≡ true
      → Frame SameCallers c.pool (step op c.pool)
      → is_returned c.position ≡ true
      → IsFine n (within (step op c.pool) (λ p. record c { pool = p }))
  shutdown-IsFine op orderly framed gone =
      within-IsFine n c.pool op SameCallers _ x.pooled orderly framed (λ p' after (same, callers).
        record {
          pooled = after;
          passed_on = x.passed_on ∙ ap (λ ts. ts ++ in_hand c.position) (sym same);
          one_caller = callers ∙ x.one_caller;
          still_open = ground (arith, gone);
          settled = x.settled;
        })

  closes-IsFine : IsFine n (on_pool shutdown_close c)
  unfolding on_pool step
  closes-IsFine =
      within-IsFine n c.pool closing Closed _ x.pooled refl (shutdown_close-Frame c.pool)
        (λ p' after ((same, callers), past). record {
          pooled = after;
          passed_on = x.passed_on ∙ ap (λ ts. ts ++ in_hand c.position) (sym same);
          one_caller = callers ∙ x.one_caller;
          still_open = ground (arith, past, x.still_open);
          settled = x.settled;
        })

  proper_wait :
      is_proper waits c ≡ true
      → (is_returned c.position ≡ true) × (is_orderly {T = T} waiting c.pool ≡ true)
  proper_wait proper = go c.position refl
    where
      go :
          (at : Position T)
          → c.position ≡ at
          → (is_returned c.position ≡ true) × (is_orderly {T = T} waiting c.pool ≡ true)
      go returned e = (ap is_returned e, rw e at proper)
      go fetching e = absurd (ground (arith, rw e at proper))
      go (submitting t) e = absurd (ground (arith, rw e at proper))
      go (sending_on t) e = absurd (ground (arith, rw e at proper))
      go (committing t) e = absurd (ground (arith, rw e at proper))

  pub turn-IsFine : (op : Turn T) → is_proper op c ≡ true → IsFine n (turn op c)
  unfolding turn on_pool step
  turn-IsFine (fetches m) _ = fetch-IsFine n c x m
  turn-IsFine submits _ = submit-IsFine n c x
  turn-IsFine (commits accepted) _ = commit-IsFine n c x accepted
  turn-IsFine (receives i) _ = worker-IsFine (receiving i) refl (work_receive-Frame c.pool i)
  turn-IsFine (finishes i) _ = worker-IsFine (finishing i) refl (work_done-Frame c.pool i)
  turn-IsFine waits proper =
      let (gone, orderly) = proper_wait proper in
      shutdown-IsFine waiting orderly (shutdown_wait-Frame c.pool) gone
  turn-IsFine closes _ = closes-IsFine

new-IsSteady : (T : Type 0) (n : ℕ) → IsSteady {T = T} n (new_audit_consumer n)
unfolding new_audit_consumer
new-IsSteady T n = record {
  pooled = fresh;
  passed_on = refl;
  one_caller = refl;
  still_open = refl;
  settled = λ q. omega arith;
}

pub serving-IsSteady : {T : Type 0} (n : ℕ) (c : AuditConsumer T) → IsServing n c → IsSteady n c
serving-IsSteady {T = T} n c started = new-IsSteady T n
serving-IsSteady n c' (turned op c _ before proper moved) =
    subst (IsFine n) moved (turn-IsFine n c (serving-IsSteady n c before) op proper)
