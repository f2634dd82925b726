-- ===== src/Pool/Draining.antt =====
-- The callers and the workers of a pool, left to themselves, come to an end, and then every message
-- is handled.
use mathlib.Core.Path.{subst}
use enterprise_middleware_go.Prelude.{
  ℕ, zero, suc, ◌+◌, ◌*◌, ◌≤◌, ◌<◌, ◌≡◌, ap, refl, inl, inr, Bool, true, false, List, [], ◌∷◌,
  Option-cases, some, length, arith, ltb, eqb, Bool-cases,
}
use enterprise_middleware_go.Pool.{
  Outcome, next, Worker, idle, busy, exited, nth, set_nth, WorkerPool, submit_send, work_receive,
  work_done, Event, adding, putting, receiving, finishing, waiting, closing, step,
}
use enterprise_middleware_go.Pool.Counting.{
  count, running, count-append, count-drop_nth, running-set_nth,
}
use enterprise_middleware_go.Pool.Sound.{receive-cases, done-cases}

-- A step of a caller or of a worker, but no new call.
abbrev pub is_internal : {T : Type 0} → Event T → Bool
is_internal (putting i) = true
is_internal (receiving i) = true
is_internal (finishing i) = true
is_internal _ = false

-- A schedule of that many such steps.
pub data Run {T : Type 0} : ℕ → WorkerPool T → WorkerPool T → Type 0 where
  done : (p : WorkerPool T) → Run 0 p p
  moved :
      (op : Event T) {k : ℕ} (p p' p'' : WorkerPool T)
      → is_internal op ≡ true
      → step op p ≡ next p'
      → Run k p' p''
      → Run (suc k) p p''

abbrev pub in_loop : {T : Type 0} → Worker T → ℕ
in_loop exited = 0
in_loop _ = 1

-- How many workers are in the loop.
abbrev pub present : {T : Type 0} → List (Worker T) → ℕ
present [] = 0
present (w ∷ ws) = in_loop w + present ws

-- A bound on the steps that are left.
abbrev pub work_left : {T : Type 0} → WorkerPool T → ℕ
work_left p =
    4 * count (λ _. true) p.sending
    + 3 * count (λ _. true) p.tasks
    + 2 * running (λ _. true) p.workers
    + present p.workers

abbrev pub Shrinks : {T : Type 0} → WorkerPool T → Outcome (WorkerPool T) → Type 0
Shrinks p (next p') = (work_left p' < work_left p) × (p'.submitted ≡ p.submitted)
Shrinks p _ = Unit

-- What a worker's move from `w` to `v` does to the number of those in the loop.
present-set_nth :
    {T : Type 0} (i : ℕ) (ws : List (Worker T)) (w v : Worker T)
    → nth i ws ≡ some w
    → present (set_nth i v ws) + in_loop w ≡ present ws + in_loop v
present-set_nth i [] w v e = ground arith
present-set_nth zero (x ∷ ws) w v e = ground arith
present-set_nth (suc i) (x ∷ ws) w v e = omega (arith, present-set_nth i ws w v e)

module _ {T : Type 0} (p : WorkerPool T) where
  abbrev all : T → Bool
  all _ = true

  submit_send-Shrinks : (i : ℕ) → Shrinks p (submit_send i p)
  unfolding submit_send
  submit_send-Shrinks i = elim (Option-cases (nth i p.sending)) [
    | inl e ↦ rw (e, Shrinks, submit_send) tt
    | inr (t, e) ↦ elim (Bool-cases p.closed) [
      | inl c ↦ rw (e, c, Shrinks, submit_send) tt
      | inr c ↦ elim (Bool-cases (ltb (length p.tasks) (p.worker_count * 2))) [
        | inl room ↦
            rw (e, c, room, Shrinks, submit_send)
              (
                omega
                    (arith, count-append all p.tasks (t ∷ []), count-drop_nth all i p.sending t e),
                refl,
              )
        | inr full ↦ rw (e, c, full, Shrinks, submit_send) tt
      ]
    ]
  ]

  work_receive-Shrinks : (i : ℕ) → Shrinks p (work_receive i p)
  unfolding work_receive
  work_receive-Shrinks i = elim (receive-cases i p) [
    | inr stays ↦ rw (stays, Shrinks) tt
    | inl e ↦ go p.tasks refl e
  ]
    where
      go : (ts : List T) → p.tasks ≡ ts → nth i p.workers ≡ some idle → Shrinks p (work_receive i p)
      go (t ∷ ts) h e =
          rw (e, h, Shrinks, work_receive)
            (
              omega (
                arith,
                ap (count all) h,
                running-set_nth all i p.workers idle (busy t) e,
                present-set_nth i p.workers idle (busy t) e,
              ),
              refl,
            )
      go [] h e = elim (Bool-cases p.closed) [
        | inr c ↦ rw (e, h, c, Shrinks, work_receive) tt
        | inl c ↦
            rw (e, h, c, Shrinks, work_receive)
              (
                omega (
                  arith,
                  ap (count all) h,
                  running-set_nth all i p.workers idle exited e,
                  present-set_nth i p.workers idle exited e,
                ),
                refl,
              )
      ]

  work_done-Shrinks : (i : ℕ) → Shrinks p (work_done i p)
  unfolding work_done
  work_done-Shrinks i = elim (done-cases i p) [
    | inr stays ↦ rw (stays, Shrinks) tt
    | inl (t, e) ↦ elim (Bool-cases (eqb p.wg 0)) [
      | inl zero_left ↦ rw (e, zero_left, Shrinks, work_done) tt
      | inr more ↦
          rw (e, more, Shrinks, work_done)
            (
              omega (
                arith,
                running-set_nth all i p.workers (busy t) idle e,
                present-set_nth i p.workers (busy t) idle e,
              ),
              refl,
            )
    ]
  ]

  pub step-Shrinks : (op : Event T) → is_internal op ≡ true → Shrinks p (step op p)
  unfolding step
  step-Shrinks (putting i) _ = submit_send-Shrinks i
  step-Shrinks (receiving i) _ = work_receive-Shrinks i
  step-Shrinks (finishing i) _ = work_done-Shrinks i
  step-Shrinks (adding t) h = absurd (ground (arith, h))
  step-Shrinks waiting h = absurd (ground (arith, h))
  step-Shrinks closing h = absurd (ground (arith, h))

-- The callers and the workers make no more steps than a bound that the pool's state gives, so
-- without a new call every schedule of them ends.
pub Run-work_left :
    {T : Type 0} (k : ℕ) (p p' : WorkerPool T) → Run k p p' → k + work_left p' ≤ work_left p
Run-work_left k p p' (done _) = omega arith
Run-work_left k p p'' (moved op _ p' _ internal e run) =
    let (less, _) = subst (Shrinks p) e (step-Shrinks p op internal) in
    omega (arith, less, Run-work_left _ p' p'' run)
