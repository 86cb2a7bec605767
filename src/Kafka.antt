-- ===== src/Kafka.antt =====
-- messaging/kafka/kafka.go, over a client library whose writer and reader are parameters. A `[]byte` is the
-- text of its bytes, as its conversions to and from `string` keep them.
pub mod Consuming
pub mod Carrying
mod Examples
use fsm_go.Prelude.{ℕ, zero, suc, ℤ, String, Option, none, some, List, [], ◌∷◌, map, Permᴰ}
use fsm_go.Dict.{Dict, insert}
use fsm_go.Errors.{Error, Result, ok, err}
use fsm_go.Types.{AnyMap, Time, OutboxMessage}

-- workflow.Message
pub record Message : Type 0 where
  pub id : String
  pub topic : String
  pub key : String
  pub payload : String
  pub headers : Dict String

-- the fields of kafka.Message that the adapter uses
pub record KafkaMessage : Type 0 where
  pub topic : String
  pub key : String
  pub value : String
  pub headers : List (String × String)
  pub time : Time

-- the client's writer and reader, each over a state of its own
abbrev pub Writer : Type 0 → Type 0
Writer K = KafkaMessage → K → Option Error × K

pub record Reader (K : Type 0) : Type 0 where
  pub fetch_message : K → Result KafkaMessage × K
  pub commit_messages : KafkaMessage → K → Option Error × K

-- workflow.MessagePublisher
abbrev pub MessagePublisher : Type 0 → Type 0
MessagePublisher K = Message → K → Option Error × K

-- an order in which Go goes through the headers
pub record HeaderOrder : Type 0 where
  pub headers : Dict String → List (String × String)
  pub headers_perm : (d : Dict String) → Permᴰ (headers d) d

-- the message for the writer, which fills the topic in; `now` is the system clock's reading
abbrev pub outgoing : HeaderOrder → Time → Message → KafkaMessage
outgoing order now msg = record {
  topic = "";
  key = msg.key;
  value = msg.payload;
  headers = order.headers msg.headers;
  time = now;
}

unfoldable pub publish : {K : Type 0} → HeaderOrder → Writer K → Time → MessagePublisher K
publish order write now msg = write (outgoing order now msg)

-- headers[header.Key] = string(header.Value), in order
unfoldable pub read_headers : List (String × String) → Dict String → Dict String
read_headers [] d = d
read_headers ((name, value) ∷ rest) d = read_headers rest (insert name value d)

unfoldable pub incoming : KafkaMessage → Message
incoming raw = record {
  id = raw.key;
  topic = raw.topic;
  key = raw.key;
  payload = raw.value;
  headers = read_headers raw.headers [];
}

abbrev pub Handler : Type 0 → Type 0
Handler H = Message → H → Option Error × H

-- The loop of `Consume`, for as many rounds as given: without an error if they are spent.
unfoldable pub consume : {K H : Type 0} → ℕ → Reader K → Handler H → K → H → Option Error × (K × H)
consume zero reader handler k h = (none, (k, h))
consume (suc n) reader handler k h =
    let (fetched, k₁) = reader.fetch_message k in
    elim fetched [
      | err e ↦ (some e, (k₁, h))
      | ok raw ↦
          let (failed, h₁) = handler (incoming raw) h in
          elim failed [
            | some e ↦ (some e, (k₁, h₁))
            | none ↦
                let (refused, k₂) = reader.commit_messages raw k₁ in
                elim refused [ some e ↦ (some e, (k₂, h₁)) | none ↦ consume n reader handler k₂ h₁ ]
          ]
    ]

-- the message of an outbox entry, under its marshalled payload
abbrev pub outbox_message : OutboxMessage → String → Message
outbox_message msg payload = record {
  id = msg.id;
  topic = msg.topic;
  key = msg.key;
  payload = payload;
  headers = ("workflow_outbox_id", msg.id) ∷ [];
}

-- `marshal` is json.Marshal
unfoldable pub publish_outbox :
    {K : Type 0}
    → (AnyMap → Result String)
    → MessagePublisher K
    → OutboxMessage
    → K
    → Option Error × K
publish_outbox marshal publisher msg k = elim (marshal msg.payload) [
  | err e ↦ (some e, k)
  | ok payload ↦ publisher (outbox_message msg payload) k
]
