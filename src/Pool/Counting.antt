-- ===== src/Pool/Counting.antt =====
-- How often a message stands in a list, and among the workers.
use enterprise_middleware_go.Prelude.{
  ℕ, zero, suc, ◌+◌, ◌≤◌, ◌≡◌, refl, Bool, true, List, [], ◌∷◌, ◌++◌, some, length, arith,
  if◌then◌else◌,
}
use enterprise_middleware_go.Pool.{Worker, idle, busy, exited, nth, set_nth, drop_nth, replicate}

module _ {T : Type 0} (q : T → Bool) where
  abbrev pub one : T → ℕ
  one t = if q t then 1 else 0

  -- How many messages of the list satisfy the test.
  abbrev pub count : List T → ℕ
  count [] = 0
  count (t ∷ ts) = one t + count ts

  abbrev pub held : Worker T → ℕ
  held (busy t) = one t
  held _ = 0

  -- How many workers are in the handler with such a message.
  abbrev pub running : List (Worker T) → ℕ
  running [] = 0
  running (w ∷ ws) = held w + running ws

  pub count-append : (ts us : List T) → count (ts ++ us) ≡ count ts + count us
  count-append [] us = omega arith
  count-append (t ∷ ts) us = omega (arith, count-append ts us)

  pub count-drop_nth :
      (i : ℕ) (ts : List T) (t : T) → nth i ts ≡ some t → count (drop_nth i ts) + one t ≡ count ts
  count-drop_nth i [] t e = ground arith
  count-drop_nth zero (x ∷ ts) t e = ground arith
  count-drop_nth (suc i) (x ∷ ts) t e = omega (arith, count-drop_nth i ts t e)

  pub running-set_nth :
      (i : ℕ) (ws : List (Worker T)) (w v : Worker T)
      → nth i ws ≡ some w
      → running (set_nth i v ws) + held w ≡ running ws + held v
  running-set_nth i [] w v e = ground arith
  running-set_nth zero (x ∷ ws) w v e = ground arith
  running-set_nth (suc i) (x ∷ ws) w v e = omega (arith, running-set_nth i ws w v e)

  pub running-replicate : (n : ℕ) → running (replicate n idle) ≡ 0
  running-replicate zero = refl
  running-replicate (suc n) = omega (arith, running-replicate n)

-- No list holds more messages that satisfy a test than messages.
pub count_le : {T : Type 0} (q : T → Bool) (ts : List T) → count q ts ≤ count (λ _. true) ts
count_le q [] = omega arith
count_le q (t ∷ ts) = ground (arith, count_le q ts)

pub running_le :
    {T : Type 0} (q : T → Bool) (ws : List (Worker T)) → running q ws ≤ running (λ _. true) ws
running_le q [] = omega arith
running_le q (busy t ∷ ws) = ground (arith, running_le q ws)
running_le q (idle ∷ ws) = omega (arith, running_le q ws)
running_le q (exited ∷ ws) = omega (arith, running_le q ws)

pub length-set_nth :
    {A : Type 0} (i : ℕ) (y : A) (xs : List A) → length (set_nth i y xs) ≡ length xs
length-set_nth i y [] = refl
length-set_nth zero y (x ∷ xs) = refl
length-set_nth (suc i) y (x ∷ xs) = omega (arith, length-set_nth i y xs)

pub length-replicate : {A : Type 0} (n : ℕ) (x : A) → length (replicate n x) ≡ n
length-replicate zero x = refl
length-replicate (suc n) x = omega (arith, length-replicate n x)
