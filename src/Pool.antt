-- ===== src/Pool.antt =====
-- pkg/concurrency/concurrency.go: the worker pool. Each step is one operation that Go makes
-- atomic: an Add or a Done of the wait group, a send or a receive on `tasks`, the return of Wait,
-- the close. A message stands for a task; `submitted` and `handled` are no part of the program,
-- they keep the messages of the calls of Submit that began and of the calls of the handler that
-- returned.
pub mod Counting
pub mod Sound
pub mod Calls
pub mod Work
pub mod Invariant
pub mod Draining
pub mod Frame
pub mod Progress
mod Tests
use enterprise_middleware_go.Prelude.{
  ◌≡◌, ℕ, zero, suc, ◌-◌, ◌*◌, Bool, true, false, not, ◌&&◌, List, [], ◌∷◌, ◌++◌, Option, none,
  some, length, ltb, eqb, if◌then◌else◌,
}

-- What a step does: a goroutine that cannot go on is blocked.
pub data Outcome (S : Type 0) : Type 0 where
  next : S → Outcome S
  blocked panicked : Outcome S

-- A goroutine of start: at the receive, in the handler, or after the loop.
pub data Worker (T : Type 0) : Type 0 where
  idle : Worker T
  busy : T → Worker T
  exited : Worker T

-- The element of that number.
abbrev pub nth : {A : Type 0} → ℕ → List A → Option A
nth i [] = none
nth zero (x ∷ xs) = some x
nth (suc i) (x ∷ xs) = nth i xs

abbrev pub set_nth : {A : Type 0} → ℕ → A → List A → List A
set_nth i y [] = []
set_nth zero y (x ∷ xs) = y ∷ xs
set_nth (suc i) y (x ∷ xs) = x ∷ set_nth i y xs

abbrev pub drop_nth : {A : Type 0} → ℕ → List A → List A
drop_nth i [] = []
drop_nth zero (x ∷ xs) = xs
drop_nth (suc i) (x ∷ xs) = x ∷ drop_nth i xs

abbrev pub replicate : {A : Type 0} → ℕ → A → List A
replicate zero x = []
replicate (suc n) x = x ∷ replicate n x

-- WorkerPool: `wg` is the counter of the wait group, `sending` the calls of Submit between Add and
-- the end of the send, `waited` the calls of Shutdown between Wait and close.
pub record WorkerPool (T : Type 0) : Type 0 where
  pub worker_count : ℕ
  pub tasks : List T
  pub closed : Bool
  pub wg : ℕ
  pub workers : List (Worker T)
  pub sending : List T
  pub waited : ℕ
  pub submitted : List T
  pub handled : List T

-- NewWorkerPool, with the goroutines of start
unfoldable pub new_worker_pool : {T : Type 0} → ℕ → WorkerPool T
new_worker_pool worker_count = record {
  worker_count = worker_count;
  tasks = [];
  closed = false;
  wg = 0;
  workers = replicate worker_count idle;
  sending = [];
  waited = 0;
  submitted = [];
  handled = [];
}

module _ {T : Type 0} where
  -- Submit: wg.Add(1)
  unfoldable pub submit_add : T → WorkerPool T → Outcome (WorkerPool T)
  submit_add t p =
      next (record p {
        wg = suc p.wg;
        sending = p.sending ++ t ∷ [];
        submitted = p.submitted ++ t ∷ [];
      })

  -- Submit: the send of the call of that number, on a channel of capacity workerCount*2
  unfoldable pub submit_send : ℕ → WorkerPool T → Outcome (WorkerPool T)
  submit_send i p = elim (nth i p.sending) [
    | none ↦ blocked
    | some t ↦
        if p.closed
        then panicked
        else if ltb (length p.tasks) (p.worker_count * 2)
        then next (record p { tasks = p.tasks ++ t ∷ []; sending = drop_nth i p.sending })
        else blocked
  ]

  -- start: the receive of `range p.tasks`, by the worker of that number
  unfoldable pub work_receive : ℕ → WorkerPool T → Outcome (WorkerPool T)
  work_receive i p = elim (nth i p.workers) [
    | some idle ↦ elim p.tasks [
      | t ∷ ts ↦ next (record p { tasks = ts; workers = set_nth i (busy t) p.workers })
      | [] ↦ if p.closed then next (record p { workers = set_nth i exited p.workers }) else blocked
    ]
    | _ ↦ blocked
  ]

  -- start: wg.Done() after the handler returned, whose error is dropped
  unfoldable pub work_done : ℕ → WorkerPool T → Outcome (WorkerPool T)
  work_done i p = elim (nth i p.workers) [
    | some (busy t) ↦
        if eqb p.wg 0
        then panicked
        else next (record p {
          wg = p.wg - 1;
          workers = set_nth i idle p.workers;
          handled = p.handled ++ t ∷ [];
        })
    | _ ↦ blocked
  ]

  -- Shutdown: wg.Wait()
  unfoldable pub shutdown_wait : WorkerPool T → Outcome (WorkerPool T)
  shutdown_wait p = if eqb p.wg 0 then next (record p { waited = suc p.waited }) else blocked

  -- Shutdown: close(p.tasks)
  unfoldable pub shutdown_close : WorkerPool T → Outcome (WorkerPool T)
  shutdown_close p =
      if eqb p.waited 0
      then blocked
      else if p.closed
      then panicked
      else next (record p { closed = true; waited = p.waited - 1 })

-- The schedule: who moves next.
pub data Event (T : Type 0) : Type 0 where
  adding : T → Event T
  putting receiving finishing : ℕ → Event T
  waiting closing : Event T

module _ {T : Type 0} where
  unfoldable pub step : Event T → WorkerPool T → Outcome (WorkerPool T)
  unfolding submit_add submit_send work_receive work_done shutdown_wait shutdown_close
  step (adding t) p = submit_add t p
  step (putting i) p = submit_send i p
  step (receiving i) p = work_receive i p
  step (finishing i) p = work_done i p
  step waiting p = shutdown_wait p
  step closing p = shutdown_close p

  -- Neither Submit nor Shutdown begins once a Shutdown has waited.
  abbrev pub is_orderly : Event T → WorkerPool T → Bool
  is_orderly (adding t) p = eqb p.waited 0 && not p.closed
  is_orderly waiting p = eqb p.waited 0 && not p.closed
  is_orderly _ p = true

  -- The pools that an orderly schedule leads to from a new one of `n` workers.
  pub data IsReachable (n : ℕ) : WorkerPool T → Type 0 where
    fresh : IsReachable n (new_worker_pool n)
    stepped :
        (op : Event T) (p p' : WorkerPool T)
        → IsReachable n p
        → is_orderly op p ≡ true
        → step op p ≡ next p'
        → IsReachable n p'
