-- ===== src/Kafka/Consumer/Loop.antt =====
-- The goroutine of Start keeps a consumer steady.
use enterprise_middleware_go.Prelude.{
  ℕ, ◌≡◌, ◌∙◌, ap, refl, sym, Bool, true, [], ◌∷◌, ◌++◌, Option, none, some, arith,
}
use mathlib.Core.List.{append-nil}
use enterprise_middleware_go.Pool.Frame.{Sent, submit_send-Frame}
use enterprise_middleware_go.Pool.{submit_add, adding, putting, step, is_orderly, stepped, drop_nth}
use enterprise_middleware_go.Pool.Counting.{count, count-append}
use enterprise_middleware_go.Kafka.Consumer.{
  Position, fetching, submitting, sending_on, committing, returned, AuditConsumer, fetch, submit,
  commit,
}
use enterprise_middleware_go.Kafka.Consumer.Holding.{
  in_hand, at_send, is_returned, underway, IsSteady, IsFine, within-IsFine,
}

module _ {T : Type 0} (n : ℕ) (c : AuditConsumer T) (x : IsSteady n c) where
  pub fetch-IsFine : (m : Option T) → IsFine n (fetch m c)
  unfolding fetch
  fetch-IsFine m = go c.position refl m
    where
      go : (at : Position T) → c.position ≡ at → (m : Option T) → IsFine n (fetch m c)
      go fetching e none =
          rw (e, fetch)
            (record {
              pooled = x.pooled;
              passed_on = x.passed_on ∙ ap (λ a. c.pool.submitted ++ in_hand a) e;
              one_caller = x.one_caller ∙ ap at_send e;
              still_open = refl;
              settled = λ q. omega (arith, x.settled q, ap (λ a. count q (underway a)) e);
            })
      go fetching e (some t) =
          rw (e, fetch)
            (record {
              pooled = x.pooled;
              passed_on =
                  ap (λ ts. ts ++ t ∷ [])
                    (x.passed_on
                      ∙ ap (λ a. c.pool.submitted ++ in_hand a) e
                      ∙ append-nil c.pool.submitted);
              one_caller = x.one_caller ∙ ap at_send e;
              still_open = ground (arith, x.still_open, ap is_returned e);
              settled = λ q. omega (
                arith,
                x.settled q,
                ap (λ a. count q (underway a)) e,
                count-append q c.fetched (t ∷ []),
              );
            })
      go (submitting t) e m = rw (e, IsFine, fetch) tt
      go (sending_on t) e m = rw (e, IsFine, fetch) tt
      go (committing t) e m = rw (e, IsFine, fetch) tt
      go returned e m = rw (e, IsFine, fetch) tt

  pub submit-IsFine : IsFine n (submit c)
  unfolding submit step
  submit-IsFine = go c.position refl
    where
      go : (at : Position T) → c.position ≡ at → IsFine n (submit c)
      go (submitting t) e =
          let open_pool : is_orderly (adding t) c.pool ≡ true =
            ground (arith, x.still_open, ap is_returned e) in
          rw (e, submit, submit_add)
            (record {
              pooled = stepped (adding t) c.pool _ x.pooled open_pool refl;
              passed_on =
                  x.passed_on
                  ∙ ap (λ a. c.pool.submitted ++ in_hand a) e
                  ∙ sym (append-nil (c.pool.submitted ++ t ∷ []));
              one_caller = ap (λ ts. ts ++ t ∷ []) (x.one_caller ∙ ap at_send e);
              still_open = open_pool;
              settled = λ q. omega (arith, x.settled q, ap (λ a. count q (underway a)) e);
            })
      go (sending_on t) e =
          rw (e, submit)
            (within-IsFine n c.pool (putting 0) (Sent 0) _ x.pooled refl
              (submit_send-Frame c.pool 0)
              (λ p' after (same, sent, waited, closed). record {
                pooled = after;
                passed_on =
                    x.passed_on
                    ∙ ap (λ a. c.pool.submitted ++ in_hand a) e
                    ∙ ap (λ ts. ts ++ []) (sym same);
                one_caller = sent ∙ ap (drop_nth 0) (x.one_caller ∙ ap at_send e);
                still_open = rw (waited, closed) (ground (arith, x.still_open, ap is_returned e));
                settled = λ q. omega (arith, x.settled q, ap (λ a. count q (underway a)) e);
              }))
      go fetching e = rw (e, IsFine, submit) tt
      go (committing t) e = rw (e, IsFine, submit) tt
      go returned e = rw (e, IsFine, submit) tt

  pub commit-IsFine : (accepted : Bool) → IsFine n (commit accepted c)
  unfolding commit
  commit-IsFine accepted = go c.position refl
    where
      go : (at : Position T) → c.position ≡ at → IsFine n (commit accepted c)
      go (committing t) e =
          rw (e, IsFine, commit)
            (record {
              pooled = x.pooled;
              passed_on = x.passed_on ∙ ap (λ a. c.pool.submitted ++ in_hand a) e;
              one_caller = x.one_caller ∙ ap at_send e;
              still_open = ground (arith, x.still_open, ap is_returned e);
              settled = λ q. ground (
                arith,
                x.settled q,
                ap (λ a. count q (underway a)) e,
                count-append q c.committed (t ∷ []),
              );
            })
      go fetching e = rw (e, IsFine, commit) tt
      go (submitting t) e = rw (e, IsFine, commit) tt
      go (sending_on t) e = rw (e, IsFine, commit) tt
      go returned e = rw (e, IsFine, commit) tt
