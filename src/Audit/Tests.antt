-- ===== src/Audit/Tests.antt =====
-- An audit service with a topic and no database: the state is the messages, newest first.
use enterprise_middleware_go.Prelude.{String, ◌≡◌, refl, List, [], ◌∷◌, Option, none, some}
use enterprise_middleware_go.Kafka.{Message, Writer, publish}
use enterprise_middleware_go.Retry.{with_backoff, attempts_from}
use enterprise_middleware_go.Audit.{
  AuditRow, AuditService, EventStamp, audit_event, insert_row, publish_event, emit,
}
use enterprise_middleware_go.Audit.Delivery.{
  IsWritten, IsInserted, inserted_state, asked_row, asked_event, emit-IsWritten,
}

abbrev topic : Writer (List Message) String
topic = record {
  waiting = record { intn = λ _ w. (0, w); wait = λ _ w. (none, w) };
  write_messages = λ m w. (none, m ∷ w);
}

abbrev topic_only : AuditService (List Message) String
topic_only = record {
  json = record { marshal_payload = λ _. "{}"; marshal_event = λ evt. evt.event_type };
  session = none;
  producer = some topic;
  no_sink = "no audit sink configured";
}

abbrev stamp : EventStamp
stamp = record { event_id = "e"; now = 0 }

-- With a database that takes each row for a message under its type.
abbrev insert_message : AuditRow → List Message → Option String × List Message
insert_message row w = (none, record { key = row.id; value = row.event_type } ∷ w)

abbrev both : AuditService (List Message) String
both = record topic_only { session = some insert_message }

emit-IsWritten_example :
    (writer : Writer (List Message) String) × (both.producer ≡ some writer)
    × IsInserted both.session (asked_row both stamp "u" "user.registered" "c" none) []
    × (emit both stamp "u" "user.registered" "c" none []
        ≡ publish writer "u"
            (both.json.marshal_event (asked_event both stamp "u" "user.registered" "c" none))
            (inserted_state both.session (asked_row both stamp "u" "user.registered" "c" none) []))
    × IsWritten writer "u"
        (both.json.marshal_event (asked_event both stamp "u" "user.registered" "c" none))
        (emit both stamp "u" "user.registered" "c" none []).1
emit-IsWritten_example =
    emit-IsWritten both stamp "u" "user.registered" "c" none []
      (unfold emit audit_event insert_row publish_event publish with_backoff attempts_from in refl)
