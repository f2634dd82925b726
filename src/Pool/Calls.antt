-- ===== src/Pool/Calls.antt =====
-- Submit and Shutdown keep a pool sound.
use enterprise_middleware_go.Prelude.{
  ℕ, ◌*◌, ◌≡◌, inl, inr, true, [], ◌∷◌, Option-cases, length, length-append, arith, ltb, eqb,
  Bool-cases,
}
use enterprise_middleware_go.Pool.{
  nth, WorkerPool, submit_add, submit_send, shutdown_wait, shutdown_close, adding, waiting,
  is_orderly,
}
use enterprise_middleware_go.Pool.Counting.{count-append, count-drop_nth}
use enterprise_middleware_go.Pool.Sound.{IsSound, IsSafe}

module _ {T : Type 0} (n : ℕ) (p : WorkerPool T) (x : IsSound n p) where
  pub submit_add-IsSafe : (t : T) → is_orderly (adding t) p ≡ true → IsSafe n (submit_add t p)
  unfolding submit_add
  submit_add-IsSafe t orderly = record {
    placed = λ q.
        omega (
          arith,
          x.placed q,
          count-append q p.submitted (t ∷ []),
          count-append q p.sending (t ∷ []),
        );
    counted = omega (arith, x.counted, count-append (λ _. true) p.sending (t ∷ []));
    bounded = x.bounded;
    capacity = x.capacity;
    size = x.size;
    single = x.single;
    last = x.last;
    settled = λ late. ground (arith, orderly, late);
    staffed = x.staffed;
  }

  pub submit_send-IsSafe : (i : ℕ) → IsSafe n (submit_send i p)
  unfolding submit_send
  submit_send-IsSafe i = elim (Option-cases (nth i p.sending)) [
    | inl e ↦ rw (e, IsSafe, submit_send) tt
    | inr (t, e) ↦ elim (Bool-cases p.closed) [
      | inl c ↦
          absurd
            (ground (arith, x.settled, c, x.counted, count-drop_nth (λ _. true) i p.sending t e))
      | inr c ↦ elim (Bool-cases (ltb (length p.tasks) (p.worker_count * 2))) [
        | inl room ↦
            rw (e, c, room, IsSafe, submit_send)
              (record {
                placed = λ q. omega (
                  arith,
                  x.placed q,
                  count-append q p.tasks (t ∷ []),
                  count-drop_nth q i p.sending t e,
                );
                counted = omega (
                  arith,
                  x.counted,
                  count-append (λ _. true) p.tasks (t ∷ []),
                  count-drop_nth (λ _. true) i p.sending t e,
                );
                bounded = ground (arith, room, x.capacity, length-append p.tasks (t ∷ []));
                capacity = x.capacity;
                size = x.size;
                single = x.single;
                last = λ z. absurd (ground (arith, z));
                settled = λ late. x.settled (ground (arith, c, late));
                staffed = λ _. x.staffed c;
              })
        | inr full ↦ rw (e, c, full, IsSafe, submit_send) tt
      ]
    ]
  ]

  pub shutdown_wait-IsSafe : is_orderly {T = T} waiting p ≡ true → IsSafe n (shutdown_wait p)
  unfolding shutdown_wait
  shutdown_wait-IsSafe orderly = elim (Bool-cases (eqb p.wg 0)) [
    | inl done ↦ rw done (record {
      placed = x.placed;
      counted = x.counted;
      bounded = x.bounded;
      capacity = x.capacity;
      size = x.size;
      single = ground (arith, orderly);
      last = λ c. absurd (ground (arith, orderly, c));
      settled = λ _. ground (arith, done);
      staffed = x.staffed;
    })
    | inr more ↦ rw more tt
  ]

  pub shutdown_close-IsSafe : IsSafe n (shutdown_close p)
  unfolding shutdown_close
  shutdown_close-IsSafe = elim (Bool-cases (eqb p.waited 0)) [
    | inl none_waited ↦ rw none_waited tt
    | inr one_waited ↦ elim (Bool-cases p.closed) [
      | inl c ↦ absurd (ground (arith, x.last c, one_waited))
      | inr c ↦
          rw (one_waited, c)
            (record {
              placed = x.placed;
              counted = x.counted;
              bounded = x.bounded;
              capacity = x.capacity;
              size = x.size;
              single = ground (arith, x.single);
              last = λ _. ground (arith, x.single);
              settled = λ _. x.settled (ground (arith, one_waited));
              staffed = λ z. absurd (ground (arith, z));
            })
    ]
  ]
