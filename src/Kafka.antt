-- ===== src/Kafka.antt =====
-- pkg/kafka: the topic, the audit event and the producer. kafka-go's writer, the clock, the random
-- source and the waits act on the state `W`; `E` is Go's error without nil.
pub mod Consumer
use enterprise_middleware_go.Prelude.{String, Option}
use enterprise_middleware_go.Prelude.Int.{ℤ}
use enterprise_middleware_go.Retry.{Waiting, with_backoff}

-- UserAuditTopic
abbrev pub user_audit_topic : String
user_audit_topic = "user.audit.v1"

pub record AuditEvent : Type 0 where
  pub id : String
  pub timestamp : ℤ
  pub user_id : String
  pub event_type : String
  pub correlation_id : String
  pub payload_json : String

-- A kafka.Message but for its time, which the writer's operation reads itself.
pub record Message : Type 0 where
  pub key : String
  pub value : String

-- The writer of a Producer, with what `retry` needs.
pub record Writer (W E : Type 0) : Type 0 where
  pub waiting : Waiting W E
  pub write_messages : Message → W → Option E × W

-- Publish
unfoldable pub publish : {W E : Type 0} → Writer W E → String → String → W → Option E × W
publish writer key value =
    with_backoff writer.waiting (writer.write_messages (record { key = key; value = value })) 3
