-- ===== src/Sse/Safety.antt =====
-- No sequence of operations on a hub panics, and what Publish does to each client.
use enterprise_middleware_go.Prelude.{
  ℕ, zero, suc, ◌≤◌, String, ◌≡◌, refl, inl, inr, true, false, not, ◌&&◌, List, [], ◌∷◌, ◌++◌, map,
  Option, some, length, length-append, All, All-append, arith, ltb, Bool-cases, if◌then◌else◌,
}
use mathlib.Core.Path.{subst}
use enterprise_middleware_go.Sse.{
  Channel, Hub, send, close, subscribe, leave, change_at, unsubscribe, offer, publish, receive,
  Operation, subscribing, unsubscribing, receiving, publishing, step, IsReachable, fresh, stepped,
}

-- A channel is closed exactly when it is no client, and never holds more than its capacity.
pub record IsSound (ch : Channel) : Type 0 where
  pub open_client : ch.closed ≡ not ch.subscribed
  pub bounded : length ch.buffer ≤ 10

-- What Publish makes of a channel.
unfoldable pub delivered : String → Channel → Channel
delivered event ch =
    if ch.subscribed && ltb (length ch.buffer) 10
    then record ch { buffer = ch.buffer ++ event ∷ [] }
    else ch

offer-delivered :
    (event : String) (ch : Channel) → IsSound ch → offer event ch ≡ some (delivered event ch)
unfolding offer send delivered
offer-delivered event ch x = ground (arith, x.open_client)

delivered-IsSound : (event : String) (ch : Channel) → IsSound ch → IsSound (delivered event ch)
unfolding delivered
delivered-IsSound event ch x = record {
  open_client = ground (arith, x.open_client);
  bounded = ground (arith, x.bounded, length-append ch.buffer (event ∷ []));
}

publish-delivered :
    (event : String) (h : Hub) → All IsSound h → publish event h ≡ some (map (delivered event) h)
unfolding publish
publish-delivered event [] _ = refl
publish-delivered event (ch ∷ h) (x, xs) =
    rw (offer-delivered event ch x, publish-delivered event h xs, publish) refl

map-IsSound : (event : String) (h : Hub) → All IsSound h → All IsSound (map (delivered event) h)
map-IsSound event [] _ = tt
map-IsSound event (ch ∷ h) (x, xs) = (delivered-IsSound event ch x, map-IsSound event h xs)

-- An operation that keeps every sound channel sound, without a panic.
abbrev Keeps : (Channel → Option Channel) → Type 0
Keeps f = (ch : Channel) → IsSound ch → (ch' : Channel) × (f ch ≡ some ch') × IsSound ch'

change_at-IsSound :
    (f : Channel → Option Channel)
    → Keeps f
    → (i : ℕ) (h : Hub) → All IsSound h
    → (h' : Hub) × (change_at f i h ≡ some h') × All IsSound h'
unfolding change_at
change_at-IsSound f keeps i [] _ = ([], refl, tt)
change_at-IsSound f keeps zero (ch ∷ h) (x, xs) =
    let (ch', e, y) = keeps ch x in (ch' ∷ h, ground arith, (y, xs))
change_at-IsSound f keeps (suc i) (ch ∷ h) (x, xs) =
    let (h', e, ys) = change_at-IsSound f keeps i h xs in (ch ∷ h', ground arith, (x, ys))

leave-IsSound : Keeps leave
unfolding leave close
leave-IsSound ch x = elim (Bool-cases ch.subscribed) [
  | inl client ↦ (
    record ch { subscribed = false; closed = true },
    ground (arith, x.open_client),
    record { open_client = refl; bounded = x.bounded },
  )
  | inr gone ↦ (ch, ground arith, x)
]

receive-IsSound : Keeps receive
unfolding receive
receive-IsSound ch x = go ch.buffer refl
  where
    go : (b : List String) → ch.buffer ≡ b → (ch' : Channel) × (receive ch ≡ some ch') × IsSound ch'
    go [] e = (ch, rw e refl, x)
    go (_ ∷ events) e = (
      record ch { buffer = events },
      rw e refl,
      record { open_client = x.open_client; bounded = ground (arith, x.bounded) },
    )

step-IsSound :
    (op : Operation) (h : Hub) → All IsSound h → (h' : Hub) × (step op h ≡ some h') × All IsSound h'
unfolding step subscribe unsubscribe
step-IsSound subscribing h xs =
    (_, refl, All-append IsSound h _ xs (record { open_client = refl; bounded = omega arith }, tt))
step-IsSound (unsubscribing i) h xs = change_at-IsSound leave leave-IsSound i h xs
step-IsSound (receiving i) h xs = change_at-IsSound receive receive-IsSound i h xs
step-IsSound (publishing event) h xs =
    (map (delivered event) h, publish-delivered event h xs, map-IsSound event h xs)

reachable-IsSound : (h : Hub) → IsReachable h → All IsSound h
reachable-IsSound h fresh = tt
reachable-IsSound h' (stepped op h _ before e) =
    let (k, same, xs) = step-IsSound op h (reachable-IsSound h before) in
    let one : k ≡ h' = cc (same, e) in subst (All IsSound) one xs

-- No operation on a hub panics, whatever operations came before: it never sends on a closed channel
-- and never closes one twice. After it every channel is closed exactly when it is no client, and
-- holds at most its ten events.
pub step-reachable :
    (op : Operation) (h : Hub) → IsReachable h → (h' : Hub) × (step op h ≡ some h') × All IsSound h'
step-reachable op h x = step-IsSound op h (reachable-IsSound h x)

-- Publish on a hub that operations led to appends the event to the buffer of every client that has
-- room, and changes nothing else.
pub publish-reachable :
    (event : String) (h : Hub) → IsReachable h → publish event h ≡ some (map (delivered event) h)
publish-reachable event h x = publish-delivered event h (reachable-IsSound h x)
