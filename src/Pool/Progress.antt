-- ===== src/Pool/Progress.antt =====
-- While a message of a pool is not handled, a caller or a worker can go on; so a schedule that runs
-- until none can leaves every message handled.
use mathlib.Core.Path.{subst}
use enterprise_middleware_go.Prelude.{
  ℕ, suc, ◌*◌, ◌<◌, ◌≡◌, ◌≢◌, ◌⊎◌, ◌∙◌, ap, refl, inl, inr, Bool, true, false, List, [], ◌∷◌, some,
  length, arith, ltb, eqb, Bool-cases,
}
use enterprise_middleware_go.Pool.{
  Outcome, next, blocked, Worker, idle, busy, exited, nth, WorkerPool, submit_send, work_receive,
  work_done, Event, adding, putting, receiving, finishing, waiting, closing, step, is_orderly,
  IsReachable, stepped,
}
use enterprise_middleware_go.Pool.Counting.{count, running, count_le, running_le}
use enterprise_middleware_go.Pool.Invariant.{reachable-IsSound}
use enterprise_middleware_go.Pool.Sound.{IsSound, exits}
use enterprise_middleware_go.Pool.Draining.{is_internal, Run, done, moved, Shrinks, step-Shrinks}

find_busy :
    {T : Type 0} (ws : List (Worker T))
    → ((i : ℕ) × (t : T) × (nth i ws ≡ some (busy t))) ⊎ (running (λ _. true) ws ≡ 0)
find_busy [] = inr refl
find_busy (busy t ∷ ws) = inl (0, t, refl)
find_busy (idle ∷ ws) = elim (find_busy ws) [
  | inl (i, t, e) ↦ inl (suc i, t, e)
  | inr z ↦ inr (omega (arith, z))
]
find_busy (exited ∷ ws) = elim (find_busy ws) [
  | inl (i, t, e) ↦ inl (suc i, t, e)
  | inr z ↦ inr (omega (arith, z))
]

first_idle :
    {T : Type 0} (ws : List (Worker T))
    → 0 < length ws
    → exits ws ≡ 0
    → running (λ _. true) ws ≡ 0
    → nth 0 ws ≡ some idle
first_idle [] h _ _ = absurd (omega arith)
first_idle (idle ∷ ws) _ _ _ = refl
first_idle (busy t ∷ ws) _ _ z = absurd (omega (arith, z))
first_idle (exited ∷ ws) _ z _ = absurd (omega (arith, z))

-- The outcome is a new pool.
abbrev Moves : {T : Type 0} → Outcome (WorkerPool T) → Type 0
Moves (next p) = Unit
Moves _ = ⊥

-- A caller or a worker can make a step.
abbrev CanMove : {T : Type 0} → WorkerPool T → Type 0
CanMove {T = T} p = (op : Event T) × (is_internal op ≡ true) × Moves (step op p)

module _ {T : Type 0} (n : ℕ) (p : WorkerPool T) (some_worker : 0 < n) (x : IsSound n p)
    (left : p.wg ≢ 0) where
  still_open : p.closed ≡ false
  still_open = elim (Bool-cases p.closed) [
    | inl c ↦ absurd (left (x.settled (ground (arith, c))))
    | inr c ↦ c
  ]

  can_move : CanMove p
  unfolding step submit_send work_receive work_done
  can_move = elim (find_busy p.workers) [
    | inl (i, t, e) ↦ (finishing i, refl, rw (e, nonzero, Moves, work_done) tt)
    | inr free ↦ go p.tasks refl p.sending refl free
  ]
    where
      nonzero : eqb p.wg 0 ≡ false
      nonzero = ground (arith, left)

      go :
          (ts : List T)
          → p.tasks ≡ ts
          → (us : List T) → p.sending ≡ us
          → running (λ _. true) p.workers ≡ 0
          → CanMove p
      go (t ∷ ts) h us g free =
          let staffed : 0 < length p.workers = ground (arith, x.size) in
          let e = first_idle p.workers staffed (x.staffed still_open) free in
          (receiving 0, refl, rw (e, h, Moves, work_receive) tt)
      go [] h (u ∷ us) g free =
          let room : ltb 0 (p.worker_count * 2) ≡ true = ground (arith, x.capacity) in
          let e : nth 0 p.sending ≡ some u = ap (nth 0) g in
          (putting 0, refl, rw (e, still_open, h, room, Moves, submit_send) tt)
      go [] h [] g free = absurd (
          left (omega (arith, x.counted, free, ap (count (λ _. true)) h, ap (count (λ _. true)) g)))

-- Every message whose Submit began is handled, and as often as it was submitted.
abbrev pub AllHandled : {T : Type 0} → List T → WorkerPool T → Type 0
AllHandled {T = T} submitted p = (q : T → Bool) → count q p.handled ≡ count q submitted

idle-AllHandled :
    {T : Type 0} (n : ℕ) (p : WorkerPool T) → IsSound n p → p.wg ≡ 0 → AllHandled p.submitted p
idle-AllHandled n p x none_left q = omega (
  arith,
  none_left,
  x.placed q,
  x.counted,
  count_le q p.sending,
  count_le q p.tasks,
  running_le q p.workers,
)

-- Shutdown closes a pool only after every message that was submitted is handled: each one as often
-- as it was submitted, and no other.
pub closed-AllHandled :
    {T : Type 0} (n : ℕ) (p : WorkerPool T)
    → IsReachable n p
    → p.closed ≡ true
    → AllHandled p.submitted p
closed-AllHandled n p before c =
    let x = reachable-IsSound n p before in idle-AllHandled n p x (x.settled (ground (arith, c)))

internal-is_orderly :
    {T : Type 0} (op : Event T) (p : WorkerPool T) → is_internal op ≡ true → is_orderly op p ≡ true
internal-is_orderly (putting i) p _ = refl
internal-is_orderly (receiving i) p _ = refl
internal-is_orderly (finishing i) p _ = refl
internal-is_orderly (adding t) p h = absurd (ground (arith, h))
internal-is_orderly waiting p h = absurd (ground (arith, h))
internal-is_orderly closing p h = absurd (ground (arith, h))

Run-IsReachable :
    {T : Type 0} (n : ℕ) {k : ℕ} (p p' : WorkerPool T)
    → IsReachable n p
    → Run k p p'
    → IsReachable n p' × (p'.submitted ≡ p.submitted)
Run-IsReachable n p _ before (done _) = (before, refl)
Run-IsReachable n p p'' before (moved op _ p' _ internal e run) =
    let (_, same) = subst (Shrinks p) e (step-Shrinks p op internal) in
    let (after, same') =
      Run-IsReachable n p' p'' (stepped op p p' before (internal-is_orderly op p internal) e) run in
    (after, same' ∙ same)

-- In a pool with a worker, a schedule of the callers and the workers that has run until each of
-- their steps is blocked has handled every message that was submitted before it, each one as often
-- as it was submitted, and no other.
pub Run-AllHandled :
    {T : Type 0} (n k : ℕ) (p p' : WorkerPool T)
    → 0 < n
    → IsReachable n p
    → Run k p p'
    → ((op : Event T) → is_internal op ≡ true → step op p' ≡ blocked)
    → AllHandled p.submitted p'
Run-AllHandled n k p p' some_worker before run stuck =
    let (after, same) = Run-IsReachable n p p' before run in
    let x = reachable-IsSound n p' after in
    elim (Bool-cases (eqb p'.wg 0)) [
      | inl none_left ↦
          subst (λ s. AllHandled s p') same (idle-AllHandled n p' x (ground (arith, none_left)))
      | inr more ↦
          let (op, internal, moves) = can_move n p' some_worker x (λ z. ground (arith, z, more)) in
          absurd (subst Moves (stuck op internal) moves)
    ]
