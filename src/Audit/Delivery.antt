-- ===== src/Audit/Delivery.antt =====
-- What a nil from Emit (internal/logger/service/audit.go) promises.
use enterprise_middleware_go.Prelude.{
  String, ◌≡◌, refl, sym, ap, ◌∙◌, inl, inr, Option, none, some, arith, Option-cases,
}
use mathlib.Core.Path.{subst}
use enterprise_middleware_go.Clock.{to_unix, from_unix}
use enterprise_middleware_go.Kafka.{AuditEvent, Writer, publish}
use enterprise_middleware_go.Retry.Outcome.{EndsInSuccess, with_backoff-success}
use enterprise_middleware_go.Audit.{
  Payload, AuditRow, AuditService, EventStamp, audit_event, audit_row, insert_row, publish_event,
  emit,
}

module _ {W E : Type 0} where
  -- The last call of WriteMessages for the event succeeded, and nothing happened after it.
  abbrev pub IsWritten : Writer W E → String → String → W → Type 0
  IsWritten writer key value w' =
      EndsInSuccess writer.waiting (writer.write_messages (record { key = key; value = value })) w'

  publish-IsWritten :
      (writer : Writer W E) (key value : String) (w : W)
      → (publish writer key value w).0 ≡ none
      → IsWritten writer key value (publish writer key value w).1
  unfolding publish
  publish-IsWritten writer key value w h =
      elim (with_backoff-success writer.waiting
        (writer.write_messages (record { key = key; value = value })) 3 w h) [
          | inl z ↦ absurd (omega (arith, z))
          | inr s ↦ s
        ]

  abbrev pub asked_json : AuditService W E → Option Payload → String
  asked_json a none = ""
  asked_json a (some payload) = a.json.marshal_payload payload

  -- The row and the event that Emit is asked for, column by column.
  abbrev pub asked_row :
      (a : AuditService W E) → EventStamp → String → String → String → Option Payload → AuditRow
  asked_row a stamp user_id event_type correlation_id payload = record {
    id = stamp.event_id;
    ts = from_unix (to_unix stamp.now);
    user_id = user_id;
    event_type = event_type;
    correlation_id = correlation_id;
    payload_json = asked_json a payload;
  }

  abbrev pub asked_event :
      (a : AuditService W E) → EventStamp → String → String → String → Option Payload → AuditEvent
  asked_event a stamp user_id event_type correlation_id payload = record {
    id = stamp.event_id;
    timestamp = to_unix stamp.now;
    user_id = user_id;
    event_type = event_type;
    correlation_id = correlation_id;
    payload_json = asked_json a payload;
  }

  -- The INSERT of the row succeeded, if a database is configured.
  abbrev pub IsInserted : Option (AuditRow → W → Option E × W) → AuditRow → W → Type 0
  IsInserted none row w = Unit
  IsInserted (some insert) row w = (insert row w).0 ≡ none

  -- The state behind the INSERT.
  abbrev pub inserted_state : Option (AuditRow → W → Option E × W) → AuditRow → W → W
  inserted_state none row w = w
  inserted_state (some insert) row w = (insert row w).1

  audit_event-asked_event :
      (a : AuditService W E) (stamp : EventStamp) (user_id event_type correlation_id : String)
      (payload : Option Payload)
      → audit_event a stamp user_id event_type correlation_id payload
        ≡ asked_event a stamp user_id event_type correlation_id payload
  unfolding audit_event
  audit_event-asked_event a stamp user_id event_type correlation_id none = refl
  audit_event-asked_event a stamp user_id event_type correlation_id (some payload) = refl

  audit_row-asked_row :
      (a : AuditService W E) (stamp : EventStamp) (user_id event_type correlation_id : String)
      (payload : Option Payload)
      → audit_row a (audit_event a stamp user_id event_type correlation_id payload)
        ≡ asked_row a stamp user_id event_type correlation_id payload
  unfolding audit_event audit_row
  audit_row-asked_row a stamp user_id event_type correlation_id none = refl
  audit_row-asked_row a stamp user_id event_type correlation_id (some payload) = refl

  insert_row-IsInserted :
      (a : AuditService W E) (evt : AuditEvent) (w : W)
      → (insert_row a evt w).0 ≡ none
      → IsInserted a.session (audit_row a evt) w
        × ((insert_row a evt w).1 ≡ inserted_state a.session (audit_row a evt) w)
  unfolding insert_row
  insert_row-IsInserted a evt w h = go a.session refl
    where
      go :
          (session : Option (AuditRow → W → Option E × W))
          → a.session ≡ session
          → IsInserted session (audit_row a evt) w
            × ((insert_row a evt w).1 ≡ inserted_state session (audit_row a evt) w)
      go none e = (tt, rw (e, insert_row) refl)
      go (some insert) e = (ground (arith, e, h), rw (e, insert_row) refl)

  -- Emit returns nil only if a producer is configured; the INSERT of the row, with the id of the
  -- event, the time in whole seconds, and the user, type, correlation id and payload of the call,
  -- succeeded or no database is configured; and behind it the last call of WriteMessages succeeded,
  -- for the JSON of the event with the same fields under the user's id.
  pub emit-IsWritten :
      (a : AuditService W E) (stamp : EventStamp) (user_id event_type correlation_id : String)
      (payload : Option Payload) (w : W)
      → (emit a stamp user_id event_type correlation_id payload w).0 ≡ none
      → let row : AuditRow = asked_row a stamp user_id event_type correlation_id payload in
        let json : String =
          a.json.marshal_event (asked_event a stamp user_id event_type correlation_id payload) in
        (writer : Writer W E) × (a.producer ≡ some writer)
        × IsInserted a.session row w
        × (emit a stamp user_id event_type correlation_id payload w
            ≡ publish writer user_id json (inserted_state a.session row w))
        × IsWritten writer user_id json (emit a stamp user_id event_type correlation_id payload w).1
  unfolding emit publish_event audit_event
  emit-IsWritten a stamp user_id event_type correlation_id payload w h =
      let evt = audit_event a stamp user_id event_type correlation_id payload in
      let same_event = audit_event-asked_event a stamp user_id event_type correlation_id payload in
      let same_row = audit_row-asked_row a stamp user_id event_type correlation_id payload in
      elim (Option-cases (insert_row a evt w).0) [
        | inr (e, failed) ↦ absurd (ground arith)
        | inl inserted ↦ elim (Option-cases a.producer) [
          | inl missing ↦ absurd (ground arith)
          | inr (writer, at) ↦
              let json = a.json.marshal_event evt in
              let w' = (insert_row a evt w).1 in
              let same : emit a stamp user_id event_type correlation_id payload w
                  ≡ publish writer user_id json w' =
                ground arith in
              let (did, state) = insert_row-IsInserted a evt w inserted in
              let written : IsWritten writer user_id json
                  (emit a stamp user_id event_type correlation_id payload w).1 =
                subst (IsWritten writer user_id json) (sym (ap (λ (o : Option E × W). o.1) same))
                  (publish-IsWritten writer user_id json w' (ground arith)) in
              (
                writer,
                at,
                subst (λ row. IsInserted a.session row w) same_row did,
                same
                    ∙ ap (publish writer user_id json) state
                    ∙ ap (λ row. publish writer user_id json (inserted_state a.session row w))
                        same_row
                    ∙ ap
                        (λ evt'. publish writer user_id (a.json.marshal_event evt') (
                          inserted_state a.session
                            (asked_row a stamp user_id event_type correlation_id payload) w))
                        same_event,
                subst
                    (λ evt'.
                      IsWritten writer user_id (a.json.marshal_event evt')
                        (emit a stamp user_id event_type correlation_id payload w).1)
                    same_event written,
              )
        ]
      ]
