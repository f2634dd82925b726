-- ===== src/Pool/Tests.antt =====
-- A pool of one worker that is given one message.

use enterprise_middleware_go.Prelude.{
  zero, suc, String, ◌+◌, ◌≤◌, ◌≡◌, refl, true, false, [], ◌∷◌, arith,
}
use enterprise_middleware_go.Pool.{
  blocked, panicked, idle, busy, WorkerPool, new_worker_pool, Event, adding, putting, receiving,
  finishing, waiting, closing, step, IsReachable, fresh, stepped,
}
use enterprise_middleware_go.Pool.Invariant.{step-IsSafe_reachable}
use enterprise_middleware_go.Pool.Sound.{IsSafe}
use enterprise_middleware_go.Pool.Draining.{is_internal, Run, done, moved, work_left, Run-work_left}
use enterprise_middleware_go.Pool.Progress.{AllHandled, closed-AllHandled, Run-AllHandled}

abbrev given : WorkerPool String
given = record {
  worker_count = 1;
  tasks = [];
  closed = false;
  wg = 1;
  workers = idle ∷ [];
  sending = "a" ∷ [];
  waited = 0;
  submitted = "a" ∷ [];
  handled = [];
}

given-IsReachable : IsReachable 1 given
unfolding step new_worker_pool
given-IsReachable = stepped (adding "a") (new_worker_pool 1) given fresh refl refl

abbrev queued : WorkerPool String
queued = record given { tasks = "a" ∷ []; sending = [] }

abbrev taken : WorkerPool String
taken = record given { workers = busy "a" ∷ []; sending = [] }

abbrev drained : WorkerPool String
drained = record given { wg = 0; sending = []; handled = "a" ∷ [] }

drains : Run 3 given drained
unfolding step
drains = moved (putting 0) given queued drained refl refl (
    moved (receiving 0) queued taken drained refl refl
      (moved (finishing 0) taken drained drained refl refl (done drained)))

taken-IsReachable : IsReachable 1 taken
unfolding step
taken-IsReachable =
    stepped (receiving 0) queued taken
      (stepped (putting 0) given queued given-IsReachable refl refl) refl refl

abbrev shut : WorkerPool String
shut = record drained { closed = true }

shut-IsReachable : IsReachable 1 shut
unfolding step
shut-IsReachable =
    stepped closing (record drained { waited = 1 }) shut
      (stepped waiting drained (record drained { waited = 1 })
        (stepped (finishing 0) taken drained taken-IsReachable refl refl) refl refl)
      refl refl

-- A Submit after Shutdown panics.
late_submit : step (putting 0) (record shut { wg = 1; sending = "b" ∷ [] }) ≡ panicked
unfolding step
late_submit = refl

step-IsSafe_reachable_run : IsSafe 1 (step (finishing 0) taken)
step-IsSafe_reachable_run = step-IsSafe_reachable 1 taken (finishing 0) taken-IsReachable refl

closed-AllHandled_example : AllHandled ("a" ∷ []) shut
closed-AllHandled_example = closed-AllHandled 1 shut shut-IsReachable refl

Run-work_left_example : 3 + work_left drained ≤ work_left given
Run-work_left_example = Run-work_left 3 given drained drains

all_blocked : (op : Event String) → is_internal op ≡ true → step op drained ≡ blocked
unfolding step
all_blocked (putting i) _ = refl
all_blocked (receiving zero) _ = refl
all_blocked (receiving (suc i)) _ = refl
all_blocked (finishing zero) _ = refl
all_blocked (finishing (suc i)) _ = refl
all_blocked (adding t) h = absurd (ground (arith, h))
all_blocked waiting h = absurd (ground (arith, h))
all_blocked closing h = absurd (ground (arith, h))

Run-AllHandled_example : AllHandled ("a" ∷ []) drained
Run-AllHandled_example =
    Run-AllHandled 1 3 given drained (omega arith) given-IsReachable drains all_blocked
