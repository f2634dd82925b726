-- ===== src/Pool/Frame.antt =====
-- What the steps of the workers and of Shutdown leave as it is.
use enterprise_middleware_go.Prelude.{
  ℕ, ◌≡◌, refl, sym, false, length, ltb, ◌*◌, Option-cases, inl, inr, List, [], ◌∷◌, some, eqb,
  Bool-cases,
}
use enterprise_middleware_go.Pool.{
  Outcome, next, idle, nth, drop_nth, WorkerPool, submit_send, work_receive, work_done,
  shutdown_wait, shutdown_close,
}
use enterprise_middleware_go.Pool.Sound.{receive-cases, done-cases}

-- The callers of Submit are where they were.
abbrev pub SameCallers : {T : Type 0} → WorkerPool T → WorkerPool T → Type 0
SameCallers p p' = (p'.submitted ≡ p.submitted) × (p'.sending ≡ p.sending)

-- Nor has Shutdown gone on.
abbrev pub SameStage : {T : Type 0} → WorkerPool T → WorkerPool T → Type 0
SameStage p p' = SameCallers p p' × (p'.waited ≡ p.waited) × (p'.closed ≡ p.closed)

abbrev pub Frame :
    {T : Type 0}
    → (WorkerPool T → WorkerPool T → Type 0)
    → WorkerPool T
    → Outcome (WorkerPool T)
    → Type 0
Frame R p (next p') = R p p'
Frame R p _ = Unit

-- The call of that number has sent.
abbrev pub Sent : {T : Type 0} → ℕ → WorkerPool T → WorkerPool T → Type 0
Sent i p p' =
    (p'.submitted ≡ p.submitted)
    × (p'.sending ≡ drop_nth i p.sending)
    × (p'.waited ≡ p.waited)
    × (p'.closed ≡ p.closed)

-- Shutdown was past its Wait.
abbrev pub Closed : {T : Type 0} → WorkerPool T → WorkerPool T → Type 0
Closed p p' = SameCallers p p' × (eqb p.waited 0 ≡ false)

module _ {T : Type 0} (p : WorkerPool T) where
  pub submit_send-Frame : (i : ℕ) → Frame (Sent i) p (submit_send i p)
  unfolding submit_send
  submit_send-Frame i = elim (Option-cases (nth i p.sending)) [
    | inl e ↦ rw (e, Frame, submit_send) tt
    | inr (t, e) ↦ elim (Bool-cases p.closed) [
      | inl c ↦ rw (e, c, Frame, submit_send) tt
      | inr c ↦ elim (Bool-cases (ltb (length p.tasks) (p.worker_count * 2))) [
        | inl room ↦ rw (e, c, room, Frame, submit_send) (refl, refl, refl, sym c)
        | inr full ↦ rw (e, c, full, Frame, submit_send) tt
      ]
    ]
  ]

  pub work_receive-Frame : (i : ℕ) → Frame SameStage p (work_receive i p)
  unfolding work_receive
  work_receive-Frame i = elim (receive-cases i p) [
    | inr stays ↦ rw (stays, Frame) tt
    | inl e ↦ go p.tasks refl e
  ]
    where
      go :
          (ts : List T)
          → p.tasks ≡ ts
          → nth i p.workers ≡ some idle
          → Frame SameStage p (work_receive i p)
      go (t ∷ ts) h e = rw (e, h, Frame, work_receive) ((refl, refl), refl, refl)
      go [] h e = elim (Bool-cases p.closed) [
        | inr c ↦ rw (e, h, c, Frame, work_receive) tt
        | inl c ↦ rw (e, h, c, Frame, work_receive) ((refl, refl), refl, sym c)
      ]

  pub work_done-Frame : (i : ℕ) → Frame SameStage p (work_done i p)
  unfolding work_done
  work_done-Frame i = elim (done-cases i p) [
    | inr stays ↦ rw (stays, Frame) tt
    | inl (t, e) ↦ elim (Bool-cases (eqb p.wg 0)) [
      | inl zero_left ↦ rw (e, zero_left, Frame, work_done) tt
      | inr more ↦ rw (e, more, Frame, work_done) ((refl, refl), refl, refl)
    ]
  ]

  pub shutdown_wait-Frame : Frame SameCallers p (shutdown_wait p)
  unfolding shutdown_wait
  shutdown_wait-Frame = elim (Bool-cases (eqb p.wg 0)) [
    | inl z ↦ rw (z, Frame, shutdown_wait) (refl, refl)
    | inr z ↦ rw (z, Frame, shutdown_wait) tt
  ]

  pub shutdown_close-Frame : Frame Closed p (shutdown_close p)
  unfolding shutdown_close
  shutdown_close-Frame = elim (Bool-cases (eqb p.waited 0)) [
    | inl z ↦ rw (z, Frame, shutdown_close) tt
    | inr z ↦ elim (Bool-cases p.closed) [
      | inl c ↦ rw (z, c, Frame, shutdown_close) tt
      | inr c ↦ rw (z, c, Frame, shutdown_close) ((refl, refl), z)
    ]
  ]
