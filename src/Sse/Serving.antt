-- ===== src/Sse/Serving.antt =====
-- What the handler of the event stream does, whatever the other users of its hub do between its
-- rounds: it never panics, and its client reads the events that it took.
use Prim.Native.String.{◌++◌}
use mathlib.Core.List
use text.Mathlib.TextLemmas.{append-nil, append_assoc}
use mathlib.Core.Path.{subst}
use enterprise_middleware_go.Prelude.{
  ℕ, zero, suc, String, ◌≡◌, refl, sym, ap, ◌∙◌, true, List, [], ◌∷◌, Option, none, some, All, inl,
  inr, Bool-cases,
}
use enterprise_middleware_go.Sse.{
  Hub, subscribing, unsubscribe, unsubscribing, receiving, receive, change_at, step, IsReachable,
  stepped,
}
use enterprise_middleware_go.Sse.Safety.{step-reachable}
use enterprise_middleware_go.Sse.Stream.{
  Connection, start, Polled, waiting, ended, got, behind, poll_channel, poll, frame, finish,
  Started, http_error, streaming, Selection, context_done, heartbeat, message_ready, on_message,
  select, taken, IsServing, opened, shared, selected,
}
use enterprise_middleware_go.Sse.Reading.{IsLine, events_of, events-frame, events-comment}

-- An event that is taken is received.
IsReceived : ℕ → Hub → Polled → Type 0
IsReceived i h waiting = Unit {0}
IsReceived i h ended = Unit {0}
IsReceived i h (got _ h') = change_at receive i h ≡ some h'

poll-IsReceived : (i : ℕ) (h : Hub) → IsReceived i h (poll i h)
unfolding poll IsReceived change_at receive
poll-IsReceived i [] = tt
poll-IsReceived zero (ch ∷ h) = go ch.buffer refl
  where
    go : (b : List String) → ch.buffer ≡ b → IsReceived zero (ch ∷ h) (poll_channel ch b h)
    go [] e = elim (Bool-cases ch.closed) [ inl p ↦ rw p tt | inr p ↦ rw p tt ]
    go (msg ∷ events) e = rw e refl
poll-IsReceived (suc i) (ch ∷ h) = behind-IsReceived (poll i h) (poll-IsReceived i h)
  where
    behind-IsReceived : (p : Polled) → IsReceived i h p → IsReceived (suc i) (ch ∷ h) (behind ch p)
    behind-IsReceived waiting _ = tt
    behind-IsReceived ended _ = tt
    behind-IsReceived (got msg h') e = rw e refl

poll-receive :
    (i : ℕ) (h h' : Hub) (msg : String) → poll i h ≡ got msg h' → step (receiving i) h ≡ some h'
unfolding step IsReceived
poll-receive i h h' msg e = subst (IsReceived i h) e (poll-IsReceived i h)

-- What stands before the rest of a stream are these events, if they are lines.
abbrev Reads : List String → String → Type 0
Reads read body =
    All IsLine read → (rest : String) → events_of (body ++ rest) ≡ List.◌++◌ read (events_of rest)

Reads-comment :
    (v : String) (read : List String) (body : String)
    → IsLine v
    → Reads read body
    → Reads read (body ++ ((":" ++ v) ++ "\n\n"))
Reads-comment v read body h r lines rest =
    ap events_of (append_assoc body ((":" ++ v) ++ "\n\n") rest)
    ∙ r lines (((":" ++ v) ++ "\n\n") ++ rest)
    ∙ ap (List.◌++◌ read) (events-comment v rest h)

All-init :
    (read : List String) (msg : String)
    → All IsLine (List.◌++◌ read (msg ∷ []))
    → All IsLine read × IsLine msg
All-init [] msg (h, _) = (tt, h)
All-init (m ∷ read) msg (h, hs) = let (k, l) = All-init read msg hs in ((h, k), l)

Reads-frame :
    (msg : String) (read : List String) (body : String)
    → Reads read body
    → Reads (List.◌++◌ read (msg ∷ [])) (body ++ frame msg)
Reads-frame msg read body r lines rest =
    let (before, h) = All-init read msg lines in
    ap events_of (append_assoc body (frame msg) rest)
    ∙ r before (frame msg ++ rest)
    ∙ ap (List.◌++◌ read) (events-frame msg rest h)
    ∙ sym (List.append_assoc read (msg ∷ []) (events_of rest))

-- What a round leads to: it does not panic, the hub stays reachable, and what the client reads grows
-- by the event that was taken.
Served : List String → Option (Option String × Hub × Connection) → Type 0
Served read none = ⊥
Served read (some (msg, h, c)) = IsReachable h × Reads (taken read msg) c.body

finish-Served :
    (read : List String) (h : Hub) (c : Connection)
    → IsReachable h
    → Reads read c.body
    → Served read (finish h c)
unfolding finish Served step
finish-Served read h c x r =
    let (h', e, _) = step-reachable (unsubscribing c.client) h x in
    let before : unsubscribe c.client h ≡ some h' = e in
    rw (before, Served) (stepped (unsubscribing c.client) h h' x e, r)

on_message-Served :
    (p : Polled) (read : List String) (h : Hub) (c : Connection)
    → IsReachable h
    → Reads read c.body
    → ((msg : String) (h' : Hub) → p ≡ got msg h' → step (receiving c.client) h ≡ some h')
    → Served read (on_message c h p)
unfolding on_message Served
on_message-Served waiting read h c x r _ = (x, r)
on_message-Served ended read h c x r _ = finish-Served read h c x r
on_message-Served (got msg h') read h c x r received =
    (stepped (receiving c.client) h h' x (received msg h' refl), Reads-frame msg read c.body r)

select-Served :
    (sel : Selection) (read : List String) (h : Hub) (c : Connection)
    → IsReachable h
    → Reads read c.body
    → Served read (select sel h c)
unfolding select Served
select-Served sel read h c x r = elim (Bool-cases c.serving) [
  | inr p ↦ rw p (x, r)
  | inl p ↦ rw p (served sel)
]
  where
    served :
        (sel : Selection)
        → Served read (elim sel [
          | context_done ↦ finish h c
          | heartbeat ↦ some (none, h, record c { body = c.body ++ ": ping\n\n" })
          | message_ready ↦ on_message c h (poll c.client h)
        ])
    served context_done = finish-Served read h c x r
    served heartbeat = (
      x,
      Reads-comment " ping" read c.body
          (refl, refl, (refl, refl, (refl, refl, (refl, refl, (refl, refl, tt))))) r,
    )
    served message_ready =
        on_message-Served (poll c.client h) read h c x r
          (λ (msg : String) (h' : Hub) (e : poll c.client h ≡ got msg h').
            poll-receive c.client h h' msg e)

Opens : Started × Hub → Type 0
Opens (http_error _ _, _) = Unit {0}
Opens (streaming c, h) = IsReachable h × Reads [] c.body

start-Opens : (h : Hub) → IsReachable h → Opens (start true h)
unfolding start Opens step
start-Opens h x = (
  stepped subscribing h _ x refl,
  λ (_ : All IsLine []) (rest : String). events-comment "ok" rest (refl, refl, (refl, refl, tt)),
)

serving-Served :
    (read : List String) (h : Hub) (c : Connection)
    → IsServing read h c
    → IsReachable h × Reads read c.body
unfolding Served Opens
serving-Served read h' c (opened h _ _ x e) = subst Opens e (start-Opens h x)
serving-Served read h' c (shared op _ h _ _ before e) =
    let (x, r) = serving-Served read h c before in (stepped op h h' x e, r)
serving-Served read h' c' (selected sel read' h _ c _ msg before e) =
    let (x, r) = serving-Served read' h c before in
    subst (Served read') e (select-Served sel read' h c x r)

-- A client reads from the stream of the handler exactly the events that the handler took from its
-- channel, in order, if no event has a line feed or a carriage return, whatever the other
-- users of the hub did meanwhile and whichever case the handler chose in each round.
pub events_of-taken :
    (read : List String) (h : Hub) (c : Connection)
    → IsServing read h c
    → All IsLine read
    → events_of c.body ≡ read
unfolding events_of
events_of-taken read h c x lines =
    let (_, r) = serving-Served read h c x in
    ap events_of (sym (append-nil c.body)) ∙ r lines "" ∙ List.append-nil read

total :
    (read : List String) (round : Option (Option String × Hub × Connection))
    → Served read round
    → (done : Option String × Hub × Connection) × (round ≡ some done)
unfolding Served
total read (some done) _ = (done, refl)
total read none led = elim led [ ]

-- No round of the handler panics, whatever the other users of the hub did before.
pub select-total :
    (sel : Selection) (read : List String) (h : Hub) (c : Connection)
    → IsServing read h c
    → (round : Option String × Hub × Connection) × (select sel h c ≡ some round)
select-total sel read h c x =
    let (y, r) = serving-Served read h c x in
    total read (select sel h c) (select-Served sel read h c y r)
