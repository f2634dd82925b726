-- ===== src/Pool/Sound.antt =====
-- Where the messages of a pool are, and what a worker can do.
use enterprise_middleware_go.Prelude.{
  ℕ, zero, suc, ◌+◌, ◌*◌, ◌≤◌, ◌≡◌, ◌⊎◌, Option, refl, inl, inr, Bool, true, false, not, ◌&&◌, List,
  [], ◌∷◌, none, some, length, arith, eqb,
}
use enterprise_middleware_go.Pool.{
  Outcome, next, blocked, panicked, Worker, idle, busy, exited, nth, set_nth, replicate, WorkerPool,
  work_receive, work_done,
}
use enterprise_middleware_go.Pool.Counting.{count, running}

-- How many workers have left the loop.
abbrev pub exits : {T : Type 0} → List (Worker T) → ℕ
exits [] = 0
exits (exited ∷ ws) = suc (exits ws)
exits (_ ∷ ws) = exits ws

-- Every message is with its caller, in the channel, with a worker, or handled; the wait group counts
-- those that are not handled; and after a Wait there is none of these.
pub record IsSound {T : Type 0} (n : ℕ) (p : WorkerPool T) : Type 0 where
  pub placed :
      (q : T → Bool)
      → count q p.submitted
        ≡ count q p.sending + count q p.tasks + running q p.workers + count q p.handled
  pub counted :
      p.wg ≡ count (λ _. true) p.sending + count (λ _. true) p.tasks + running (λ _. true) p.workers
  pub bounded : length p.tasks ≤ n * 2
  pub capacity : p.worker_count ≡ n
  pub size : length p.workers ≡ n
  pub single : p.waited ≤ 1
  pub last : p.closed ≡ true → p.waited ≡ 0
  pub settled : eqb p.waited 0 && not p.closed ≡ false → p.wg ≡ 0
  pub staffed : p.closed ≡ false → exits p.workers ≡ 0

-- The outcome is no panic, and keeps the invariant.
abbrev pub IsSafe : {T : Type 0} → ℕ → Outcome (WorkerPool T) → Type 0
IsSafe n (next p) = IsSound n p
IsSafe n blocked = Unit
IsSafe n panicked = ⊥

pub exits-replicate : (T : Type 0) (n : ℕ) → exits (replicate {A = Worker T} n idle) ≡ 0
exits-replicate T zero = refl
exits-replicate T (suc n) = exits-replicate T n

pub exits-set_nth :
    {T : Type 0} (i : ℕ) (w : Worker T) (ws : List (Worker T))
    → exits (w ∷ []) ≡ 0
    → exits ws ≡ 0
    → exits (set_nth i w ws) ≡ 0
exits-set_nth i w [] _ h = refl
exits-set_nth zero w (x ∷ ws) g h = ground arith
exits-set_nth (suc i) w (x ∷ ws) g h = ground (arith, exits-set_nth i w ws)

pub receive-cases :
    {T : Type 0} (i : ℕ) (p : WorkerPool T)
    → (nth i p.workers ≡ some idle) ⊎ (work_receive i p ≡ blocked)
unfolding work_receive
receive-cases {T = T} i p = go (nth i p.workers) refl
  where
    go :
        (o : Option (Worker T))
        → nth i p.workers ≡ o
        → (nth i p.workers ≡ some idle) ⊎ (work_receive i p ≡ blocked)
    go none e = inr (rw (e, work_receive) refl)
    go (some idle) e = inl e
    go (some (busy t)) e = inr (rw (e, work_receive) refl)
    go (some exited) e = inr (rw (e, work_receive) refl)

pub done-cases :
    {T : Type 0} (i : ℕ) (p : WorkerPool T)
    → ((t : T) × (nth i p.workers ≡ some (busy t))) ⊎ (work_done i p ≡ blocked)
unfolding work_done
done-cases {T = T} i p = go (nth i p.workers) refl
  where
    go :
        (o : Option (Worker T))
        → nth i p.workers ≡ o
        → ((t : T) × (nth i p.workers ≡ some (busy t))) ⊎ (work_done i p ≡ blocked)
    go none e = inr (rw (e, work_done) refl)
    go (some idle) e = inr (rw (e, work_done) refl)
    go (some (busy t)) e = inl (t, e)
    go (some exited) e = inr (rw (e, work_done) refl)
