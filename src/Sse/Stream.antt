-- ===== src/Sse/Stream.antt =====
-- pkg/sse/http.go: the handler that streams the events of a hub. What select chooses is the
-- schedule's; the body is what has been written and flushed, and a failed write changes nothing
-- that the handler sees. A panic of the hub is `none`.
use Prim.Native.String.{◌++◌}
use enterprise_middleware_go.Prelude.{
  ℕ, zero, suc, String, ◌≡◌, Bool, true, false, List, [], ◌∷◌, Option, none, some, if◌then◌else◌,
}
use enterprise_middleware_go.Sse.{
  Channel, Hub, subscribe, unsubscribe, Operation, step, IsReachable,
}

-- The headers that are set before the first write.
abbrev pub stream_headers : List (String × String)
stream_headers =
    ("Access-Control-Allow-Origin", "*")
    ∷ ("Content-Type", "text/event-stream")
    ∷ ("Cache-Control", "no-cache")
    ∷ ("Connection", "keep-alive")
    ∷ ("X-Accel-Buffering", "no")
    ∷ []

-- A handler that has subscribed the channel of that number, until it returns.
pub record Connection : Type 0 where
  pub client : ℕ
  pub body : String
  pub serving : Bool

-- http.Error with its status and text, or the loop.
pub data Started : Type 0 where
  http_error : ℕ → String → Started
  streaming : Connection → Started

-- Handler up to its loop; whether the writer is a Flusher is given.
unfoldable pub start : Bool → Hub → Started × Hub
unfolding subscribe
start flushes h =
    let (ch, h') = subscribe h in
    if flushes
    then (streaming (record { client = ch; body = ":ok\n\n"; serving = true }), h')
    else (http_error 500 "streaming unsupported", h)

-- A receive on the channel of that number: no event yet, a closed channel, or its oldest event.
pub data Polled : Type 0 where
  waiting ended : Polled
  got : String → Hub → Polled

abbrev pub behind : Channel → Polled → Polled
behind ch (got msg h) = got msg (ch ∷ h)
behind ch waiting = waiting
behind ch ended = ended

abbrev pub poll_channel : Channel → List String → Hub → Polled
poll_channel ch (msg ∷ events) h = got msg (record ch { buffer = events } ∷ h)
poll_channel ch [] h = if ch.closed then ended else waiting

unfoldable pub poll : ℕ → Hub → Polled
poll i [] = waiting
poll zero (ch ∷ h) = poll_channel ch ch.buffer h
poll (suc i) (ch ∷ h) = behind ch (poll i h)

-- The text of one event.
unfoldable pub frame : String → String
frame msg = "data: " ++ (msg ++ "\n\n")

-- The deferred Unsubscribe.
unfoldable pub finish : Hub → Connection → Option (Option String × Hub × Connection)
finish h c = elim (unsubscribe c.client h) [
  | none ↦ none
  | some h' ↦ some (none, h', record c { serving = false })
]

-- The case that select chooses.
pub data Selection : Type 0 where
  context_done heartbeat message_ready : Selection

unfoldable pub on_message : Connection → Hub → Polled → Option (Option String × Hub × Connection)
unfolding finish frame
on_message c h waiting = some (none, h, c)
on_message c h ended = finish h c
on_message c h (got msg h') = some (some msg, h', record c { body = c.body ++ frame msg })

-- One round of the loop: the event that was taken, if any, the hub and the connection. A case that
-- is not ready changes nothing.
unfoldable pub select : Selection → Hub → Connection → Option (Option String × Hub × Connection)
unfolding finish poll on_message
select sel h c =
    if c.serving
    then elim sel [
      | context_done ↦ finish h c
      | heartbeat ↦ some (none, h, record c { body = c.body ++ ": ping\n\n" })
      | message_ready ↦ on_message c h (poll c.client h)
    ]
    else some (none, h, c)

abbrev pub taken : List String → Option String → List String
taken read none = read
taken read (some msg) = mathlib.Core.List.◌++◌ read (msg ∷ [])

-- A handler with the hub that it shares, after it has taken these events: its rounds come between
-- any operations of the others.
pub data IsServing : List String → Hub → Connection → Type 0 where
  opened :
      (h h' : Hub) (c : Connection)
      → IsReachable h
      → start true h ≡ (streaming c, h')
      → IsServing [] h' c
  shared :
      (op : Operation) (read : List String) (h h' : Hub) (c : Connection)
      → IsServing read h c
      → step op h ≡ some h'
      → IsServing read h' c
  selected :
      (sel : Selection) (read : List String) (h h' : Hub) (c c' : Connection) (msg : Option String)
      → IsServing read h c
      → select sel h c ≡ some (msg, h', c')
      → IsServing (taken read msg) h' c'
