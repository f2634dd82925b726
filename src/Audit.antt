-- ===== src/Audit.antt =====
-- internal/logger: AuditService (service/audit.go) and the LoggerService handler (grpc/server.go).
-- Cassandra and Kafka act on the state `W`; a sink that is nil is `none`. encoding/json is taken
-- as two functions: what they write is not read again by this code.
pub mod Delivery
mod Tests
use enterprise_middleware_go.Prelude.{String, Bool, true, List, [], Option, none, some}
use enterprise_middleware_go.Prelude.Int.{ℤ}
use enterprise_middleware_go.Clock.{Time, to_unix, from_unix}
use enterprise_middleware_go.Kafka.{AuditEvent, Writer, publish}

-- A payload `map[string]interface{}` whose values are texts, as those of the program are.
abbrev pub Payload : Type 0
Payload = List (String × String)

pub record JsonLib : Type 0 where
  pub marshal_payload : Payload → String
  pub marshal_event : AuditEvent → String

-- The columns of the INSERT into audit_logs; created_at is the database's.
pub record AuditRow : Type 0 where
  pub id : String
  pub ts : Time
  pub user_id : String
  pub event_type : String
  pub correlation_id : String
  pub payload_json : String

-- AuditService; `no_sink` is the error value "no audit sink configured".
pub record AuditService (W E : Type 0) : Type 0 where
  pub json : JsonLib
  pub session : Option (AuditRow → W → Option E × W)
  pub producer : Option (Writer W E)
  pub no_sink : E

-- The values that one Emit draws: uuid.New().String() and time.Now().
pub record EventStamp : Type 0 where
  pub event_id : String
  pub now : Time

module _ {W E : Type 0} (a : AuditService W E) where
  payload_text : Option Payload → String
  payload_text none = ""
  payload_text (some payload) = a.json.marshal_payload payload

  unfoldable pub audit_event : EventStamp → String → String → String → Option Payload → AuditEvent
  unfolding payload_text
  audit_event stamp user_id event_type correlation_id payload = record {
    id = stamp.event_id;
    timestamp = to_unix stamp.now;
    user_id = user_id;
    event_type = event_type;
    correlation_id = correlation_id;
    payload_json = payload_text payload;
  }

  unfoldable pub audit_row : AuditEvent → AuditRow
  audit_row evt = record {
    id = evt.id;
    ts = from_unix evt.timestamp;
    user_id = evt.user_id;
    event_type = evt.event_type;
    correlation_id = evt.correlation_id;
    payload_json = evt.payload_json;
  }

  -- if a.Session != nil { … }
  unfoldable pub insert_row : AuditEvent → W → Option E × W
  unfolding audit_row
  insert_row evt w = elim a.session [ none ↦ (none, w) | some insert ↦ insert (audit_row evt) w ]

  -- if a.Producer != nil { … }
  unfoldable pub publish_event : AuditEvent → W → Option E × W
  publish_event evt w = elim a.producer [
    | none ↦ (some a.no_sink, w)
    | some writer ↦ publish writer evt.user_id (a.json.marshal_event evt) w
  ]

  -- Emit
  unfoldable pub emit : EventStamp → String → String → String → Option Payload → W → Option E × W
  unfolding audit_event insert_row publish_event
  emit stamp user_id event_type correlation_id payload w =
      let evt = audit_event stamp user_id event_type correlation_id payload in
      let (failed, w') = insert_row evt w in
      elim failed [ some e ↦ (some e, w') | none ↦ publish_event evt w' ]

  -- WriteAudit of LoggerServer: the request's fields, success whatever Emit returned.
  unfoldable pub write_audit : EventStamp → AuditEvent → W → Bool × W
  write_audit stamp evt w =
      let (_, w') = emit stamp evt.user_id evt.event_type evt.correlation_id (some []) w in
      (true, w')
