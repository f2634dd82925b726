-- ===== src/Retry/Outcome.antt =====
-- What WithBackoff returns, and how often it calls the function.
use enterprise_middleware_go.Prelude.{
  ℕ, zero, suc, ◌+◌, ◌≤◌, ◌≡◌, refl, ◌⊎◌, inl, inr, Option, none, some, arith, Option-cases,
}
use enterprise_middleware_go.Retry.{Waiting, pause, attempts_from, with_backoff}

module _ {W E : Type 0} (waiting : Waiting W E) (fn : W → Option E × W) where
  -- A run of the loop that ended by a success of the function.
  abbrev pub EndsInSuccess : W → Type 0
  EndsInSuccess w' = (w : W) × ((fn w).0 ≡ none) × (w' ≡ (fn w).1)

  -- One round of the loop: it ends in success, ends with the context, or goes on.
  module _ (left i : ℕ) (err : Option E) (w : W) where
    abbrev result : Option E × W
    result = attempts_from waiting fn (suc left) i err w

    data Round : Type 0 where
      succeeded : (fn w).0 ≡ none → result ≡ (none, (fn w).1) → Round
      ended :
          (c : E) (w' : W) → result ≡ (some c, w') → w' ≡ (pause waiting fn i (fn w).1).1 → Round
      continued :
          (e : E)
          → (fn w).0 ≡ some e
          → result ≡ attempts_from waiting fn left (suc i) (some e) (pause waiting fn i (fn w).1).1
          → Round

    round : Round
    unfolding attempts_from
    round = elim (Option-cases (fn w).0) [
      | inl e ↦ succeeded e (ground arith)
      | inr (x, e) ↦ elim (Option-cases (pause waiting fn i (fn w).1).0) [
        | inl e' ↦ continued x e (ground arith)
        | inr (c, e') ↦ ended c (pause waiting fn i (fn w).1).1 (ground arith) refl
      ]
    ]

  attempts_from-success :
      (left i : ℕ) (err : Option E) (w : W)
      → (attempts_from waiting fn left i err w).0 ≡ none
      → ((left ≡ 0) × (err ≡ none)) ⊎ EndsInSuccess (attempts_from waiting fn left i err w).1
  attempts_from-success zero i err w h = inl (refl, unfold attempts_from in h)
  attempts_from-success (suc left) i err w h = elim (round left i err w) [
    | succeeded e r ↦ inr (w, e, rw r)
    | ended c w' r _ ↦ absurd (ground (arith, r))
    | continued e x r ↦
        elim (attempts_from-success left (suc i) (some e) (pause waiting fn i (fn w).1).1
          (rw r at h)) [ inl (_, z) ↦ cc | inr s ↦ inr (rw r s) ]
  ]

  -- WithBackoff returns nil only if it was given no attempts, or if its last call of the function
  -- returned nil: the state that it leaves is the state after that call.
  pub with_backoff-success :
      (attempts : ℕ) (w : W)
      → (with_backoff waiting fn attempts w).0 ≡ none
      → (attempts ≡ 0) ⊎ EndsInSuccess (with_backoff waiting fn attempts w).1
  unfolding with_backoff
  with_backoff-success attempts w h = elim (attempts_from-success attempts 0 none w h) [
    | inl (z, _) ↦ inl z
    | inr s ↦ inr s
  ]

  module _ (calls : W → ℕ) (one_call : (w : W) → calls (fn w).1 ≤ calls w + 1)
      (no_call : (i : ℕ) (w : W) → calls (pause waiting fn i w).1 ≤ calls w) where
    attempts_from-calls :
        (left i : ℕ) (err : Option E) (w : W)
        → calls (attempts_from waiting fn left i err w).1 ≤ calls w + left
    attempts_from-calls zero i err w = unfold attempts_from in omega arith
    attempts_from-calls (suc left) i err w = elim (round left i err w) [
      | succeeded e r ↦ rw r (omega (arith, one_call w))
      | ended c w' r x ↦ rw (r, x) (omega (arith, one_call w, no_call i (fn w).1))
      | continued e x r ↦ rw r (
          omega (
            arith,
            attempts_from-calls left (suc i) (some e) (pause waiting fn i (fn w).1).1,
            one_call w,
            no_call i (fn w).1,
          ))
    ]

    -- By any count of calls that one call of the function raises by at most one and a pause does
    -- not raise, WithBackoff makes at most `attempts` calls.
    pub with_backoff-calls :
        (attempts : ℕ) (w : W) → calls (with_backoff waiting fn attempts w).1 ≤ calls w + attempts
    unfolding with_backoff
    with_backoff-calls attempts w = attempts_from-calls attempts 0 none w
