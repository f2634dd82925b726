-- ===== src/Pool/Invariant.antt =====
-- No step of an orderly schedule of a worker pool panics, and every message is in one place.
use enterprise_middleware_go.Prelude.{ℕ, ◌≡◌, refl, true, arith}
use mathlib.Core.Path.{subst}
use enterprise_middleware_go.Pool.{
  idle, WorkerPool, new_worker_pool, Event, adding, putting, receiving, finishing, waiting, closing,
  step, is_orderly, IsReachable, fresh, stepped,
}
use enterprise_middleware_go.Pool.Counting.{running-replicate, length-replicate}
use enterprise_middleware_go.Pool.Sound.{IsSound, IsSafe, exits-replicate}
use enterprise_middleware_go.Pool.Calls.{
  submit_add-IsSafe, submit_send-IsSafe, shutdown_wait-IsSafe, shutdown_close-IsSafe,
}
use enterprise_middleware_go.Pool.Work.{work_receive-IsSafe, work_done-IsSafe}

step-IsSafe :
    {T : Type 0} (n : ℕ) (p : WorkerPool T)
    → IsSound n p
    → (op : Event T) → is_orderly op p ≡ true
    → IsSafe n (step op p)
unfolding step
step-IsSafe n p x (adding t) orderly = submit_add-IsSafe n p x t orderly
step-IsSafe n p x (putting i) _ = submit_send-IsSafe n p x i
step-IsSafe n p x (receiving i) _ = work_receive-IsSafe n p x i
step-IsSafe n p x (finishing i) _ = work_done-IsSafe n p x i
step-IsSafe n p x waiting orderly = shutdown_wait-IsSafe n p x orderly
step-IsSafe n p x closing _ = shutdown_close-IsSafe n p x

new-IsSound : (T : Type 0) (n : ℕ) → IsSound {T = T} n (new_worker_pool n)
unfolding new_worker_pool
new-IsSound T n = record {
  placed = λ q. omega (arith, running-replicate q n);
  counted = omega (arith, running-replicate {T = T} (λ _. true) n);
  bounded = omega arith;
  capacity = refl;
  size = length-replicate n idle;
  single = omega arith;
  last = λ _. refl;
  settled = λ _. refl;
  staffed = λ _. exits-replicate T n;
}

pub reachable-IsSound : {T : Type 0} (n : ℕ) (p : WorkerPool T) → IsReachable n p → IsSound n p
reachable-IsSound {T = T} n p fresh = new-IsSound T n
reachable-IsSound n p' (stepped op p _ before orderly moved) =
    subst (IsSafe n) moved (step-IsSafe n p (reachable-IsSound n p before) op orderly)

-- No step of a schedule that is orderly so far and stays so panics: Submit never sends on a closed
-- channel, Shutdown never closes it twice, and the wait group never falls below 0. A pool of `n`
-- workers holds at most `2 n` messages in its channel after it.
pub step-IsSafe_reachable :
    {T : Type 0} (n : ℕ) (p : WorkerPool T) (op : Event T)
    → IsReachable n p
    → is_orderly op p ≡ true
    → IsSafe n (step op p)
step-IsSafe_reachable n p op before orderly =
    step-IsSafe n p (reachable-IsSound n p before) op orderly
