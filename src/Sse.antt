-- ===== src/Sse.antt =====
-- pkg/sse/hub.go. A hub is every channel that Subscribe has made, in the order of making: a channel
-- is its number there, and `subscribed` says that it is a key of the map `clients`. Sending on a
-- closed channel and closing it again panic in Go, which is `none` here. Each operation holds the
-- lock, and what Publish does to one channel does not depend on the others, so the order of the
-- iteration over the map does not matter.
pub mod Safety
pub mod Stream
pub mod Reading
pub mod Serving
mod Tests
use enterprise_middleware_go.Prelude.{
  ℕ, zero, suc, String, ◌≡◌, Bool, true, false, List, [], ◌∷◌, ◌++◌, Option, none, some, length,
  ltb, if◌then◌else◌,
}

-- A channel of capacity 10; the buffer has the oldest event first.
pub record Channel : Type 0 where
  pub buffer : List String
  pub subscribed : Bool
  pub closed : Bool

abbrev pub Hub : Type 0
Hub = List Channel

-- NewHub
abbrev pub new_hub : Hub
new_hub = []

-- select { case ch <- event: default: }
unfoldable pub send : String → Channel → Option Channel
send event ch =
    if ch.closed
    then none
    else if ltb (length ch.buffer) 10
    then some (record ch { buffer = ch.buffer ++ event ∷ [] })
    else some ch

-- close(ch)
unfoldable pub close : Channel → Option Channel
close ch = if ch.closed then none else some (record ch { closed = true })

-- Subscribe: the number of the new channel, and the hub
unfoldable pub subscribe : Hub → ℕ × Hub
subscribe h = (length h, h ++ record { buffer = []; subscribed = true; closed = false } ∷ [])

-- The body of Unsubscribe for one channel.
unfoldable pub leave : Channel → Option Channel
unfolding close
leave ch = if ch.subscribed then close (record ch { subscribed = false }) else some ch

-- One operation on the channel of that number; the hub has not made a channel out of range.
unfoldable pub change_at : (Channel → Option Channel) → ℕ → Hub → Option Hub
change_at f i [] = some []
change_at f zero (ch ∷ h) = elim (f ch) [ none ↦ none | some ch' ↦ some (ch' ∷ h) ]
change_at f (suc i) (ch ∷ h) = elim (change_at f i h) [ none ↦ none | some h' ↦ some (ch ∷ h') ]

-- Unsubscribe
unfoldable pub unsubscribe : ℕ → Hub → Option Hub
unfolding change_at leave
unsubscribe = change_at leave

-- The body of the loop of Publish for one channel.
unfoldable pub offer : String → Channel → Option Channel
unfolding send
offer event ch = if ch.subscribed then send event ch else some ch

-- Publish, and Broadcast, which calls it
unfoldable pub publish : String → Hub → Option Hub
unfolding offer
publish event [] = some []
publish event (ch ∷ h) = elim (offer event ch) [
  | none ↦ none
  | some ch' ↦ elim (publish event h) [ none ↦ none | some h' ↦ some (ch' ∷ h') ]
]

-- A reader takes the oldest event.
unfoldable pub receive : Channel → Option Channel
receive ch = elim ch.buffer [ [] ↦ some ch | _ ∷ events ↦ some (record ch { buffer = events }) ]

-- What the clients, the publishers and the readers do, one operation after another.
pub data Operation : Type 0 where
  subscribing : Operation
  unsubscribing receiving : ℕ → Operation
  publishing : String → Operation

unfoldable pub step : Operation → Hub → Option Hub
unfolding subscribe unsubscribe publish receive change_at
step subscribing h = some (subscribe h).1
step (unsubscribing i) h = unsubscribe i h
step (receiving i) h = change_at receive i h
step (publishing event) h = publish event h

-- The hubs that a sequence of operations leads to from a new one.
pub data IsReachable : Hub → Type 0 where
  fresh : IsReachable new_hub
  stepped : (op : Operation) (h h' : Hub) → IsReachable h → step op h ≡ some h' → IsReachable h'
