-- ===== src/Pool/Work.antt =====
-- The loop of a worker keeps a pool sound.
use enterprise_middleware_go.Prelude.{
  ℕ, ◌≡◌, ◌∙◌, ap, refl, inl, inr, true, List, [], ◌∷◌, some, length, arith, eqb, Bool-cases,
  if◌then◌else◌,
}
use enterprise_middleware_go.Pool.{idle, busy, exited, nth, WorkerPool, work_receive, work_done}
use enterprise_middleware_go.Pool.Counting.{count, count-append, running-set_nth, length-set_nth}
use enterprise_middleware_go.Pool.Sound.{IsSound, IsSafe, exits-set_nth, receive-cases, done-cases}

module _ {T : Type 0} (n : ℕ) (p : WorkerPool T) (x : IsSound n p) where
  pub work_receive-IsSafe : (i : ℕ) → IsSafe n (work_receive i p)
  unfolding work_receive
  work_receive-IsSafe i = elim (receive-cases i p) [
    | inr stays ↦ rw (stays, IsSafe) tt
    | inl e ↦ go p.tasks refl e
  ]
    where
      go : (ts : List T) → p.tasks ≡ ts → nth i p.workers ≡ some idle → IsSafe n (work_receive i p)
      go (t ∷ ts) h e =
          rw (e, h, IsSafe, work_receive)
            (record {
              placed = λ q. omega (
                arith,
                x.placed q,
                ap (count q) h,
                running-set_nth q i p.workers idle (busy t) e,
              );
              counted = omega (
                arith,
                x.counted,
                ap (count (λ _. true)) h,
                running-set_nth (λ _. true) i p.workers idle (busy t) e,
              );
              bounded = omega (arith, x.bounded, ap length h);
              capacity = x.capacity;
              size = length-set_nth i (busy t) p.workers ∙ x.size;
              single = x.single;
              last = x.last;
              settled = x.settled;
              staffed = λ c. exits-set_nth i (busy t) p.workers refl (x.staffed c);
            })
      go [] h e = elim (Bool-cases p.closed) [
        | inr c ↦ rw (e, h, c, IsSafe, work_receive) tt
        | inl c ↦
            rw (e, h, IsSafe, work_receive)
              (rw (c, if◌then◌else◌)
                (record {
                  placed = λ q. omega (
                    arith,
                    x.placed q,
                    ap (count q) h,
                    running-set_nth q i p.workers idle exited e,
                  );
                  counted = omega (
                    arith,
                    x.counted,
                    ap (count (λ _. true)) h,
                    running-set_nth (λ _. true) i p.workers idle exited e,
                  );
                  bounded = omega arith;
                  capacity = x.capacity;
                  size = length-set_nth i exited p.workers ∙ x.size;
                  single = x.single;
                  last = λ _. x.last c;
                  settled = λ late. x.settled (ground (arith, c, late));
                  staffed = λ z. absurd (ground (arith, z, c));
                }))
      ]

  pub work_done-IsSafe : (i : ℕ) → IsSafe n (work_done i p)
  unfolding work_done
  work_done-IsSafe i = elim (done-cases i p) [
    | inr stays ↦ rw (stays, IsSafe) tt
    | inl (t, e) ↦ elim (Bool-cases (eqb p.wg 0)) [
      | inl zero_left ↦ absurd (
          ground
            (arith, zero_left, x.counted, running-set_nth (λ _. true) i p.workers (busy t) idle e))
      | inr more ↦
          rw (e, more, IsSafe, work_done)
            (record {
              placed = λ q. omega (
                arith,
                x.placed q,
                count-append q p.handled (t ∷ []),
                running-set_nth q i p.workers (busy t) idle e,
              );
              counted =
                  ground (
                    arith,
                    more,
                    x.counted,
                    running-set_nth (λ _. true) i p.workers (busy t) idle e,
                  );
              bounded = x.bounded;
              capacity = x.capacity;
              size = length-set_nth i idle p.workers ∙ x.size;
              single = x.single;
              last = x.last;
              settled = λ late. ground (arith, x.settled late, more);
              staffed = λ c. exits-set_nth i idle p.workers refl (x.staffed c);
            })
    ]
  ]
