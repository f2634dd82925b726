-- ===== src/Kafka/Consumer/Tests.antt =====
-- A consumer with one worker that is given one message.

use mathlib.Core.Path.{subst}
use mathlib.Core.Option.{some-injective, none-ne-some}
use enterprise_middleware_go.Prelude.{
  ℕ, String, Bool, ◌≤◌, ◌≡◌, refl, true, List, [], ◌∷◌, Option, none, some, inl, inr, Bool-cases,
  if◌then◌else◌,
}
use enterprise_middleware_go.Pool.{idle, Outcome, next, blocked, panicked}
use enterprise_middleware_go.Pool.Counting.{count}
use enterprise_middleware_go.Pool.Progress.{AllHandled}
use enterprise_middleware_go.Kafka.Consumer.{
  sending_on, returned, AuditConsumer, new_audit_consumer, Turn, is_proper, fetches, submits,
  commits, receives, finishes, waits, closes, turn, IsServing, started, turned,
}
use enterprise_middleware_go.Kafka.Consumer.Holding.{IsFine}
use enterprise_middleware_go.Kafka.Consumer.Closing.{turn-IsFine_serving, closed-AllHandled_fetched}

-- A schedule played from a consumer, as long as it is proper and no turn is blocked or panics.
playing : List (Turn String) → AuditConsumer String → Option (AuditConsumer String)
playing [] c = some c
playing (op ∷ ops) c = elim (turn op c) [
  | next c' ↦ if is_proper op c then playing ops c' else none
  | _ ↦ none
]

playing-IsServing :
    (n : ℕ) (ops : List (Turn String)) (c c' : AuditConsumer String)
    → IsServing n c
    → playing ops c ≡ some c'
    → IsServing n c'
unfolding playing
playing-IsServing n [] c c' before e = subst (IsServing n) (some-injective c c' e) before
playing-IsServing n (op ∷ ops) c c' before e =
    go (turn op c) refl (λ d. playing-IsServing n ops d c')
  where
    go :
        (o : Outcome (AuditConsumer String))
        → turn op c ≡ o
        → ((d : AuditConsumer String) → IsServing n d → playing ops d ≡ some c' → IsServing n c')
        → IsServing n c'
    go (next d) h rest = elim (Bool-cases (is_proper op c)) [
      | inl p ↦ rest d (turned op c d before p h) (rw (h, p, playing) at e)
      | inr p ↦ absurd (none-ne-some c' (rw (h, p, playing) at e))
    ]
    go blocked h _ = absurd (none-ne-some c' (rw (h, playing) at e))
    go panicked h _ = absurd (none-ne-some c' (rw (h, playing) at e))

one_message : List (Turn String)
one_message =
    fetches (some "a")
    ∷ submits
    ∷ submits
    ∷ commits true
    ∷ receives 0
    ∷ finishes 0
    ∷ fetches none
    ∷ waits
    ∷ closes
    ∷ []

abbrev finished : AuditConsumer String
finished = record {
  pool = record {
    worker_count = 1;
    tasks = [];
    closed = true;
    wg = 0;
    workers = idle ∷ [];
    sending = [];
    waited = 0;
    submitted = "a" ∷ [];
    handled = "a" ∷ [];
  };
  position = returned;
  fetched = "a" ∷ [];
  committed = "a" ∷ [];
}

finished-IsServing : IsServing 1 finished
unfolding playing one_message turn new_audit_consumer
finished-IsServing = playing-IsServing 1 one_message (new_audit_consumer 1) finished started refl

-- Close while Start is between FetchMessage and Submit: the send finds the channel closed.
early_close :
    turn submits (record finished {
      position = sending_on "b";
      pool = record finished.pool { wg = 1; sending = "b" ∷ [] };
    })
    ≡ panicked
unfolding turn
early_close = refl

turn-IsFine_serving_example : IsFine 1 (turn (receives 0) finished)
turn-IsFine_serving_example = turn-IsFine_serving 1 finished (receives 0) finished-IsServing refl

closed-AllHandled_fetched_example :
    AllHandled ("a" ∷ []) finished.pool
    × ((q : String → Bool) → count q ("a" ∷ []) ≤ count q ("a" ∷ []))
closed-AllHandled_fetched_example = closed-AllHandled_fetched 1 finished finished-IsServing refl
