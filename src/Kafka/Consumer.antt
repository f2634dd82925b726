-- ===== src/Kafka/Consumer.antt =====
-- pkg/kafka/consumer.go: the consumer, over the worker pool. kafka-go's reader is what the schedule
-- says: a message or an error from FetchMessage, an error or none from CommitMessages. `fetched`
-- and `committed` are no part of the program, they keep what the reader gave and was told.
pub mod Holding
pub mod Loop
pub mod Steady
pub mod Closing
mod Tests
use enterprise_middleware_go.Prelude.{
  ℕ, ◌≡◌, Bool, true, false, not, ◌&&◌, List, [], ◌∷◌, ◌++◌, Option, none, some, eqb, if◌then◌else◌,
}
use enterprise_middleware_go.Pool.{
  Outcome, next, blocked, panicked, WorkerPool, new_worker_pool, submit_add, submit_send,
  work_receive, work_done, shutdown_wait, shutdown_close,
}

-- Where the goroutine of Start is: at FetchMessage, before Submit's Add, at its send, before
-- CommitMessages, or gone.
pub data Position (T : Type 0) : Type 0 where
  fetching : Position T
  submitting sending_on committing : T → Position T
  returned : Position T

pub record AuditConsumer (T : Type 0) : Type 0 where
  pub pool : WorkerPool T
  pub position : Position T
  pub fetched : List T
  pub committed : List T

-- NewAuditConsumer, and Start called
unfoldable pub new_audit_consumer : {T : Type 0} → ℕ → AuditConsumer T
unfolding new_worker_pool
new_audit_consumer worker_count = record {
  pool = new_worker_pool worker_count;
  position = fetching;
  fetched = [];
  committed = [];
}

module _ {T : Type 0} where
  -- A step of the pool, and then what the consumer becomes.
  abbrev pub within :
      Outcome (WorkerPool T) → (WorkerPool T → AuditConsumer T) → Outcome (AuditConsumer T)
  within (next pool) f = next (f pool)
  within blocked f = blocked
  within panicked f = panicked

  -- Start: FetchMessage
  unfoldable pub fetch : Option T → AuditConsumer T → Outcome (AuditConsumer T)
  fetch m c = elim c.position [
    | fetching ↦ elim m [
      | none ↦ next (record c { position = returned })
      | some t ↦ next (record c { position = submitting t; fetched = c.fetched ++ t ∷ [] })
    ]
    | _ ↦ blocked
  ]

  -- Start: Submit
  unfoldable pub submit : AuditConsumer T → Outcome (AuditConsumer T)
  unfolding submit_add submit_send
  submit c = elim c.position [
    | submitting t ↦
        within (submit_add t c.pool) (λ p. record c { pool = p; position = sending_on t })
    | sending_on t ↦
        within (submit_send 0 c.pool) (λ p. record c { pool = p; position = committing t })
    | _ ↦ blocked
  ]

  -- Start: CommitMessages, whose error is dropped; `accepted` says that there is none
  unfoldable pub commit : Bool → AuditConsumer T → Outcome (AuditConsumer T)
  commit accepted c = elim c.position [
    | committing t ↦ next (record c {
      position = fetching;
      committed = if accepted then c.committed ++ t ∷ [] else c.committed;
    })
    | _ ↦ blocked
  ]

  -- A worker of the pool, and the two parts of Close's Shutdown
  unfoldable pub on_pool :
      (WorkerPool T → Outcome (WorkerPool T)) → AuditConsumer T → Outcome (AuditConsumer T)
  on_pool f c = within (f c.pool) (λ p. record c { pool = p })

-- Who moves next.
pub data Turn (T : Type 0) : Type 0 where
  fetches : Option T → Turn T
  submits : Turn T
  commits : Bool → Turn T
  receives finishes : ℕ → Turn T
  waits closes : Turn T

module _ {T : Type 0} where
  unfoldable pub turn : Turn T → AuditConsumer T → Outcome (AuditConsumer T)
  unfolding fetch submit commit on_pool work_receive work_done shutdown_wait shutdown_close
  turn (fetches m) c = fetch m c
  turn submits c = submit c
  turn (commits accepted) c = commit accepted c
  turn (receives i) c = on_pool (work_receive i) c
  turn (finishes i) c = on_pool (work_done i) c
  turn waits c = on_pool shutdown_wait c
  turn closes c = on_pool shutdown_close c

  -- Close begins once, and after the goroutine of Start has ended.
  abbrev pub is_proper : Turn T → AuditConsumer T → Bool
  is_proper waits c = elim c.position [
    | returned ↦ eqb c.pool.waited 0 && not c.pool.closed
    | _ ↦ false
  ]
  is_proper _ c = true

  -- The consumers that a proper schedule leads to.
  pub data IsServing (n : ℕ) : AuditConsumer T → Type 0 where
    started : IsServing n (new_audit_consumer n)
    turned :
        (op : Turn T) (c c' : AuditConsumer T)
        → IsServing n c
        → is_proper op c ≡ true
        → turn op c ≡ next c'
        → IsServing n c'
