-- ===== src/Sse/Tests.antt =====
-- A hub with one client who left and one who stayed.
use enterprise_middleware_go.Prelude.{
  ◌≡◌, refl, true, false, String, [], ◌∷◌, Option, none, some, All,
}
use enterprise_middleware_go.Sse.{
  Hub, subscribe, publish, step, subscribing, publishing, unsubscribing, IsReachable, fresh,
  stepped,
}
use enterprise_middleware_go.Sse.Stream.{
  Connection, start, heartbeat, message_ready, context_done, select, IsServing, opened, shared,
  selected, frame,
}
use enterprise_middleware_go.Sse.Reading.{events_of}
use enterprise_middleware_go.Sse.Serving.{events_of-taken, select-total}
use enterprise_middleware_go.Sse.Safety.{IsSound, delivered, step-reachable, publish-reachable}

abbrev one_left : Hub
one_left =
    record { buffer = []; subscribed = false; closed = true }
    ∷ record { buffer = []; subscribed = true; closed = false }
    ∷ []

one_left-IsReachable : IsReachable one_left
unfolding step subscribe
one_left-IsReachable =
    stepped (unsubscribing 0) _ one_left
      (stepped subscribing _ _ (stepped subscribing _ _ fresh refl) refl) refl

-- The first client leaves again: nothing happens.
step-reachable_example : (h : Hub) × (step (unsubscribing 0) one_left ≡ some h) × All IsSound h
step-reachable_example = step-reachable (unsubscribing 0) one_left one_left-IsReachable

publish-reachable_example :
    publish "user.registered" one_left
    ≡ some (
        record { buffer = []; subscribed = false; closed = true }
        ∷ record { buffer = "user.registered" ∷ []; subscribed = true; closed = false }
        ∷ [])
unfolding delivered
publish-reachable_example = publish-reachable "user.registered" one_left one_left-IsReachable

-- A client whose handler wrote two events around a ping.
abbrev two_read : Connection
two_read = record {
  client = 0;
  body = ":ok\n\ndata: in\n\n: ping\n\ndata: out\n\n";
  serving = true;
}

abbrev one_idle : Hub
one_idle = record { buffer = []; subscribed = true; closed = false } ∷ []

two_read-IsServing : IsServing ("in" ∷ "out" ∷ []) one_idle two_read
unfolding step subscribe publish start select frame
two_read-IsServing =
    selected message_ready _ _ one_idle _ two_read (some "out")
      (shared (publishing "out") _ _ _ _
        (selected heartbeat _ _ _ _ _ none
          (selected message_ready _ _ _ _ _ (some "in")
            (shared (publishing "in") _ _ _ _ (opened _ _ _ fresh refl) refl) refl)
          refl)
        refl)
      refl

events_of-taken_example : events_of two_read.body ≡ "in" ∷ "out" ∷ []
events_of-taken_example =
    events_of-taken _ one_idle two_read two_read-IsServing
      ((refl, refl, (refl, refl, tt)), ((refl, refl, (refl, refl, (refl, refl, tt))), tt))

select-total_example :
    (round : Option String × Hub × Connection) × (select context_done one_idle two_read
      ≡ some round)
select-total_example = select-total context_done _ one_idle two_read two_read-IsServing
